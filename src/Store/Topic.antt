-- ===== src/Store/Topic.antt =====
-- Which engines the topic's source sends.
use http_nu.Common.{
  ℕ, zero, suc, ◌≡◌, refl, sym, ap, ◌∙◌, inl, inr, Bool, true, false, List, [], ◌∷◌, Option, none,
  some, Text, Bytes, codes, take, right, ◌>>=◌, cons_some, Option-cases, text_eq, if◌then◌else◌,
}
use http_nu.Template.{Frame}
use http_nu.Engine.{Nu, Engine, script_to_engine}
use http_nu.Store.{
  Store, replace, content_of, enrich_engine, placeholder_closure, engine_of, frame_engine,
  send_engine, send_first, watch_topic, initial_script, read_topic_content, topic_source, watched,
}

module _ {S B D K P V C : Type 0} (nu : Nu S B D K P V C) (st : Store S) (strip : Text → Text) where
  -- The text that a frame's hash stands for.
  abbrev pub text_of_bytes : Option Bytes → Option Text
  text_of_bytes none = none
  text_of_bytes (some b) = st.from_utf8 b

  abbrev pub text_at : Option Text → Option Text
  text_at none = none
  text_at (some h) = text_of_bytes (st.cas_read h)

  -- The base engine's state with the modules of the stream up to a frame.
  abbrev pub modules_up_to : Option ℕ → S → S
  modules_up_to none s = s
  modules_up_to (some id) s = st.load_modules id s

  -- The engine of a script, made from the base engine, when it makes one.
  abbrev pub made : Engine S C → ℕ → Option ℕ → Option Text → Option (Engine S C)
  made base token as_of none = none
  made base token as_of (some script) = right (
      script_to_engine nu strip token (record base { state = modules_up_to as_of base.state })
        script none)

  -- The engines of the frames of the topic that have one, in order.
  abbrev pub later : Text → Engine S C → ℕ → List Frame → List (Engine S C)
  later topic base token [] = []
  later topic base token (frame ∷ frames) =
      let more = later topic base (suc token) frames in
      if text_eq frame.topic topic
      then cons_some (made base token (some frame.id) (text_at frame.hash)) more
      else more

  -- The script of the topic's last frame with the frame's number, the placeholder with none.
  abbrev pub script_at : Text → ℕ → Option Text → Text × Option ℕ
  script_at topic id (some script) = (script, some id)
  script_at topic id none = (
    replace (codes "__STORE_PATH__") st.path (replace (codes "__TOPIC__") topic st.placeholder),
    none,
  )

  abbrev pub first_script : Text → Option Frame → Text × Option ℕ
  first_script topic (some frame) = script_at topic frame.id (text_at frame.hash)
  first_script topic none = script_at topic 0 none

  -- All engines of the topic: the first one, and the later ones when it watches.
  abbrev pub if_watching : Bool → List (Engine S C) → List (Engine S C)
  if_watching true es = es
  if_watching false es = []

  abbrev pub topic_engines : Text → Bool → Engine S C → ℕ → List (Engine S C)
  topic_engines topic watching base token =
      let (script, id) = first_script topic (st.last_frame topic) in
      cons_some (made base token id (some script))
        (if_watching watching (later topic base (suc token) (st.read_after topic id)))

  content_of-text_at : (frame : Frame) → content_of nu st strip frame ≡ text_at frame.hash
  unfolding content_of
  content_of-text_at frame = elim (Option-cases frame.hash) [
    | inl e ↦ rw e refl
    | inr (h, e) ↦ elim (Option-cases (st.cas_read h)) [
      | inl f ↦ rw (e, f) refl
      | inr (b, f) ↦ rw (e, f) refl
    ]
  ]

  engine_of-made :
      (base : Engine S C) (token : ℕ) (as_of : Option ℕ) (script : Text)
      → engine_of nu st strip token base as_of script ≡ made base token as_of (some script)
  unfolding enrich_engine
  engine_of-made base token none script = refl
  engine_of-made base token (some id) script = refl

  frame_engine-made :
      (topic : Text) (base : Engine S C) (token : ℕ) (frame : Frame)
      → frame_engine nu st strip topic base token frame ≡ (
          if text_eq frame.topic topic
          then made base token (some frame.id) (text_at frame.hash)
          else none)
  unfolding frame_engine
  frame_engine-made topic base token frame =
      ap (λ (o : Option (Engine S C)). if text_eq frame.topic topic then o else none)
        (ap (λ t. t >>= λ script. engine_of nu st strip token base (some frame.id) script)
            (content_of-text_at frame)
          ∙ engine_made (text_at frame.hash))
    where
      engine_made :
          (t : Option Text)
          → (t >>= λ script. engine_of nu st strip token base (some frame.id) script)
            ≡ made base token (some frame.id) t
      engine_made none = refl
      engine_made (some script) = engine_of-made base token (some frame.id) script

  -- What is sent of the engines while the receiver takes `taken`.
  send_engine-take :
      (o : Option (Engine S C)) (taken : ℕ) (rest : ℕ → List (Engine S C))
      (more : List (Engine S C))
      → ((n : ℕ) → rest n ≡ take n more)
      → send_engine nu st strip o taken rest ≡ take taken (cons_some o more)
  send_engine-take none taken rest more h = h taken
  send_engine-take (some e) zero rest more h = refl
  send_engine-take (some e) (suc n) rest more h = ap (λ xs. e ∷ xs) (h n)

  take_nil : (n : ℕ) → let nobody : List (Engine S C) = [] in take n nobody ≡ nobody
  take_nil zero = refl
  take_nil (suc n) = refl

  watch_topic-take :
      (topic : Text) (base : Engine S C) (token taken : ℕ) (frames : List Frame)
      → watch_topic nu st strip topic base token taken frames
        ≡ take taken (later topic base token frames)
  unfolding watch_topic
  watch_topic-take topic base token taken [] = sym (take_nil taken)
  watch_topic-take topic base token taken (frame ∷ frames) =
      send_engine-take (frame_engine nu st strip topic base token frame) taken
        (λ n. watch_topic nu st strip topic base (suc token) n frames)
        (later topic base (suc token) frames)
        (λ n. watch_topic-take topic base (suc token) n frames)
      ∙ ap (λ o. take taken (cons_some o (later topic base (suc token) frames)))
          (frame_engine-made topic base token frame)
      ∙ chosen (text_eq frame.topic topic)
    where
      chosen :
          (b : Bool)
          → take taken (
              cons_some
                (if b then made base token (some frame.id) (text_at frame.hash) else none)
                (later topic base (suc token) frames))
            ≡ take taken (
                if b
                then cons_some
                    (made base token (some frame.id) (text_at frame.hash))
                    (later topic base (suc token) frames)
                else later topic base (suc token) frames)
      chosen true = refl
      chosen false = refl

  watched-take :
      (watching : Bool) (topic : Text) (base : Engine S C) (token taken : ℕ) (frames : List Frame)
      → watched nu st strip watching (watch_topic nu st strip topic base token taken frames)
        ≡ take taken (if_watching watching (later topic base token frames))
  watched-take true topic base token taken frames = watch_topic-take topic base token taken frames
  watched-take false topic base token taken frames = sym (take_nil taken)

  initial_script-first :
      (topic : Text)
      → initial_script nu st strip topic (read_topic_content nu st strip topic)
        ≡ first_script topic (st.last_frame topic)
  unfolding read_topic_content placeholder_closure
  initial_script-first topic = elim (Option-cases (st.last_frame topic)) [
    | inl e ↦ rw e refl
    | inr (frame, e) ↦ elim (Option-cases (text_at frame.hash)) [
      | inl f ↦ rw (e, content_of-text_at frame, f) refl
      | inr (script, f) ↦ rw (e, content_of-text_at frame, f) refl
    ]
  ]

  send_first-take :
      (o : Option (Engine S C)) (n : ℕ) (rest : ℕ → List (Engine S C)) (more : List (Engine S C))
      → ((m : ℕ) → rest m ≡ take m more)
      → send_first nu st strip o (suc n) rest ≡ some (take (suc n) (cons_some o more))
  send_first-take none n rest more h = ap (λ xs. some xs) (h (suc n))
  send_first-take (some e) n rest more h = ap (λ xs. some (e ∷ xs)) (h n)

  -- With a receiver that takes `n + 1` engines, the topic's source sends without a panic the first `n + 1` of these:
  -- the engine of the text of the topic's last frame, made from the base engine with the modules up to that frame;
  -- when the topic has no frame or its text cannot be read, the engine of the placeholder, in which the topic and the
  -- store's path are filled in, made from the base engine alone; when it watches, the engines of the frames behind that
  -- last one (of all frames that are read, after the placeholder), of this topic only, in their order, each made from
  -- the base engine with the modules up to its frame. A frame without a readable text and a script that makes no
  -- engine are left out.
  pub topic_source-take :
      (topic : Text) (watching : Bool) (base : Engine S C) (token n : ℕ)
      → topic_source nu st strip topic watching base token (suc n)
        ≡ some (take (suc n) (topic_engines topic watching base token))
  unfolding topic_source
  topic_source-take topic watching base token n =
      rw (initial_script-first topic) (sent (first_script topic (st.last_frame topic)))
    where
      sent :
          (p : Text × Option ℕ)
          → send_first nu st strip (engine_of nu st strip token base p.1 p.0) (suc n) (λ m.
            watched nu st strip watching
              (watch_topic nu st strip topic base (suc token) m (st.read_after topic p.1)))
            ≡ some (
                take (suc n) (
                  cons_some (made base token p.1 (some p.0)) (
                    if_watching watching (later topic base (suc token) (st.read_after topic p.1)))))
      sent (script, id) =
          send_first-take (engine_of nu st strip token base id script) n _ _
            (λ m. watched-take watching topic base (suc token) m (st.read_after topic id))
          ∙ ap
              (λ o. some (
                take (suc n) (
                  cons_some o (
                    if_watching watching (later topic base (suc token) (st.read_after topic id))))))
              (engine_of-made base token id script)
