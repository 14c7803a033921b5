-- ===== src/Handler/Stream.antt =====
-- `handle_inner`: the task that reads the request's body into a channel, and the stream that takes
-- it out of the channel again, and the request record. The frames are those that hyper gives.
use http_nu.Common.{
  ℕ, zero, suc, ◌≡◌, refl, ap, ◌≤◌, ◌⊎◌, inl, inr, List, [], ◌∷◌, ◌++◌, Option, none, some, Text,
  Bytes, length, insert, arith,
}
use http_nu.Request.{Request}

pub data BodyFrame : Type 0 where
  data_frame : Bytes → BodyFrame
  trailers : BodyFrame
  frame_error : Text → BodyFrame

-- What the task sends while the reader takes `taken`, after which it is gone.
unfoldable pub send_frames : ℕ → List BodyFrame → List (Text ⊎ Bytes)
send_frames taken [] = []
send_frames taken (trailers ∷ fs) = send_frames taken fs
send_frames zero (data_frame b ∷ fs) = []
send_frames (suc n) (data_frame b ∷ fs) = inr b ∷ send_frames n fs
send_frames zero (frame_error e ∷ fs) = []
send_frames (suc n) (frame_error e ∷ fs) = inl e ∷ []

-- What the stream reads, and the error that ends it.
unfoldable pub read_messages : List (Text ⊎ Bytes) → Bytes × Option Text
read_messages [] = ([], none)
read_messages (inr b ∷ ms) = let (rest, e) = read_messages ms in (b ++ rest, e)
read_messages (inl e ∷ ms) = ([], some e)

-- The request that is passed on: what hyper gives of it, and the query's pairs, of which a map keeps the last of a name.
pub record Parts : Type 0 where
  pub version : Text
  pub method : Text
  pub authority : Option Text
  pub headers : List (Text × Option Text)
  pub uri : Text
  pub path : Text
  pub query_pairs : Option (List (Text × Text))

abbrev pub collect_pairs : List (Text × Text) → List (Text × Text) → List (Text × Text)
collect_pairs [] m = m
collect_pairs ((k, v) ∷ ps) m = collect_pairs ps (insert k v m)

abbrev pub query_map : Option (List (Text × Text)) → List (Text × Text)
query_map none = []
query_map (some ps) = collect_pairs ps []

abbrev pub ip_of : {Ip : Type 0} → Option (Ip × ℕ) → Option Ip
ip_of none = none
ip_of (some (ip, port)) = some ip

abbrev pub port_of : {Ip : Type 0} → Option (Ip × ℕ) → Option ℕ
port_of none = none
port_of (some (ip, port)) = some port

-- `trusted` is what `resolve_trusted_ip` gives for these headers and the peer's address.
unfoldable pub request_of : {Ip : Type 0} → Option (Ip × ℕ) → Option Ip → Parts → Request Ip
unfolding insert
request_of addr trusted parts = record {
  proto = parts.version;
  method = parts.method;
  authority = parts.authority;
  remote_ip = ip_of addr;
  remote_port = port_of addr;
  trusted_ip = trusted;
  headers = parts.headers;
  uri = parts.uri;
  path = parts.path;
  query = query_map parts.query_pairs;
}

-- The data of the frames up to the first error, and that error.
abbrev body_of : List BodyFrame → Bytes × Option Text
body_of [] = ([], none)
body_of (data_frame b ∷ fs) = let (rest, e) = body_of fs in (b ++ rest, e)
body_of (trailers ∷ fs) = body_of fs
body_of (frame_error e ∷ fs) = ([], some e)

-- A reader that takes as many messages as there are frames reads the whole body.
read_messages-send_frames :
    (taken : ℕ) (fs : List BodyFrame)
    → length fs ≤ taken
    → read_messages (send_frames taken fs) ≡ body_of fs
unfolding read_messages send_frames
read_messages-send_frames taken [] h = refl
read_messages-send_frames taken (trailers ∷ fs) h =
    read_messages-send_frames taken fs (omega (arith, h))
read_messages-send_frames zero (data_frame b ∷ fs) h = absurd (omega (arith, h))
read_messages-send_frames (suc n) (data_frame b ∷ fs) h =
    ap (λ (r : Bytes × Option Text). (b ++ r.0, r.1))
      (read_messages-send_frames n fs (omega (arith, h)))
read_messages-send_frames zero (frame_error e ∷ fs) h = absurd (omega (arith, h))
read_messages-send_frames (suc n) (frame_error e ∷ fs) h = refl
