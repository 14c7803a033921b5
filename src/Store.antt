-- ===== src/Store.antt =====
-- src/store.rs: the handler's script as the content of a topic. The store is the fields of
-- `Store`, of which `Outside` of the templates has the same reads; Nushell is `Nu`.
pub mod Topic
pub mod Init
mod Tests
use http_nu.Common.{
  ℕ, zero, suc, ◌⊎◌, inl, inr, Bool, true, false, not, List, [], ◌∷◌, ◌++◌, Option, none, some,
  Text, Bytes, ◌>>=◌, right, if◌then◌else◌, text_eq, codes, length, strip_prefix, ◌-◌,
}
use http_nu.Template.{Frame}
use http_nu.Engine.{Nu, Engine, script_to_engine}

pub record Store (S : Type 0) : Type 0 where
  -- The last frame of a topic, and what is read of a topic behind a frame, as it comes.
  pub last_frame : Text → Option Frame
  pub read_after : Text → Option ℕ → List Frame
  pub cas_read : Text → Option Bytes
  pub from_utf8 : Bytes → Option Text
  -- `nu_modules_at` and `load_modules`: the state, also when some did not load.
  pub load_modules : ℕ → S → S
  -- The text of examples/topic-placeholder.nu, and the path of the store.
  pub placeholder : Text
  pub path : Text

-- `str::replace` of a text that is not empty; `skip` characters belong to what was replaced.
unfoldable pub replace_from : ℕ → Text → Text → Text → Text
unfolding strip_prefix
replace_from skip old new [] = []
replace_from (suc skip) old new (c ∷ s) = replace_from skip old new s
replace_from zero old new (c ∷ s) = elim (strip_prefix old (c ∷ s)) [
  | none ↦ c ∷ replace_from zero old new s
  | some rest ↦ new ++ replace_from (length old - 1) old new s
]

unfoldable pub replace : Text → Text → Text → Text
unfolding replace_from
replace old new s = replace_from zero old new s

module _ {S B D K P V C : Type 0} (nu : Nu S B D K P V C) (st : Store S) (strip : Text → Text) where
  unfoldable pub placeholder_closure : Text → Text
  unfolding replace
  placeholder_closure topic =
      replace (codes "__STORE_PATH__") st.path (replace (codes "__TOPIC__") topic st.placeholder)

  unfoldable pub content_of : Frame → Option Text
  content_of frame = frame.hash >>= λ h. st.cas_read h >>= λ bytes. st.from_utf8 bytes

  unfoldable pub read_topic_content : Text → Option (Text × ℕ)
  unfolding content_of
  read_topic_content topic =
      st.last_frame topic >>= λ frame. content_of frame >>= λ content. some (content, frame.id)

  unfoldable pub enrich_engine : Engine S C → Option ℕ → Engine S C
  enrich_engine base none = base
  enrich_engine base (some id) = record base { state = st.load_modules id base.state }

  -- The engine of a script with the modules of the stream; `token` is its new one.
  abbrev pub engine_of : ℕ → Engine S C → Option ℕ → Text → Option (Engine S C)
  engine_of token base as_of script =
      right (script_to_engine nu strip token (enrich_engine base as_of) script none)

  -- The engine of a frame that is received, unless it is skipped.
  unfoldable pub frame_engine : Text → Engine S C → ℕ → Frame → Option (Engine S C)
  unfolding content_of enrich_engine
  frame_engine topic base token frame =
      if text_eq frame.topic topic
      then (content_of frame >>= λ script. engine_of token base (some frame.id) script)
      else none

  -- The engines that are sent while the receiver takes `taken`, after which it is gone. A token is a number that no
  -- other engine has.
  abbrev pub send_engine : Option (Engine S C) → ℕ → (ℕ → List (Engine S C)) → List (Engine S C)
  send_engine none taken rest = rest taken
  send_engine (some e) zero rest = []
  send_engine (some e) (suc n) rest = e ∷ rest n

  unfoldable pub watch_topic : Text → Engine S C → ℕ → ℕ → List Frame → List (Engine S C)
  unfolding frame_engine
  watch_topic topic base token taken [] = []
  watch_topic topic base token taken (frame ∷ frames) =
      send_engine (frame_engine topic base token frame) taken
        (λ n. watch_topic topic base (suc token) n frames)

  abbrev pub initial_script : Text → Option (Text × ℕ) → Text × Option ℕ
  initial_script topic none = (placeholder_closure topic, none)
  initial_script topic (some (content, id)) = (content, some id)

  abbrev pub watched : Bool → List (Engine S C) → List (Engine S C)
  watched true later = later
  watched false later = []

  -- What `topic_source` sends, and its watcher. `none` is the panic when nobody receives the first engine.
  abbrev pub send_first :
      Option (Engine S C) → ℕ → (ℕ → List (Engine S C)) → Option (List (Engine S C))
  send_first none taken rest = some (rest taken)
  send_first (some e) zero rest = none
  send_first (some e) (suc n) rest = some (e ∷ rest n)

  unfoldable pub topic_source : Text → Bool → Engine S C → ℕ → ℕ → Option (List (Engine S C))
  unfolding read_topic_content enrich_engine watch_topic
  topic_source topic watching base token taken =
      let (script, last_id) = initial_script topic (read_topic_content topic) in
      send_first (engine_of token base last_id script) taken
        (λ n. watched watching (watch_topic topic base (suc token) n (st.read_after topic last_id)))
