-- ===== src/HeaderMap.antt =====
-- The `http` crate's header maps, as the handlers use them: an interface with its documented laws.
pub mod Instance
use http_nu.Common.{
  ℕ, ◌≡◌, ◌↔◌, Bool, true, List, [], ◌∷◌, ◌++◌, Text, Option, none, some, codes, if◌then◌else◌,
  to_lowercase, ◌>>=◌,
}

pub record HeaderMap : Type 1 where
  pub Map : Type 0
  pub Name : Type 0
  pub Val : Type 0
  -- `HeaderName::from_bytes`, `HeaderValue::from_str`, `HeaderValue::from_static`.
  pub name_of : Text → Option Name
  pub value_of : Text → Option Val
  pub static_value : Text → Val
  pub same : Name → Name → Bool
  pub new : Map
  pub insert : Map → Name → Val → Map
  pub append : Map → Name → Val → Map
  pub get_all : Map → Name → List Val
  -- The names that the handlers write themselves.
  pub content_type : Name
  pub content_encoding : Name
  pub vary : Name
  pub cache_control : Name
  pub connection : Name
  pub content_length : Name
  pub host : Name
  -- `StatusCode::from_u16` accepts the number.
  pub is_status : ℕ → Bool
  pub same_iff : (m n : Name) → (same m n ≡ true) ↔ (m ≡ n)
  pub get_all-new : (n : Name) → get_all new n ≡ []
  pub get_all-insert :
      (h : Map) (m n : Name) (v : Val)
      → get_all (insert h m v) n ≡ (if same m n then v ∷ [] else get_all h n)
  pub get_all-append :
      (h : Map) (m n : Name) (v : Val)
      → get_all (append h m v) n ≡ (if same m n then get_all h n ++ v ∷ [] else get_all h n)
  -- Names are compared without regard to case.
  pub same_name :
      (j k : Text) (n : Name)
      → name_of j ≡ some n
      → name_of k ≡ some n
      → to_lowercase j ≡ to_lowercase k
  pub content_type_name : name_of (codes "content-type") ≡ some content_type
  pub content_length_name : name_of (codes "content-length") ≡ some content_length
  pub host_name : name_of (codes "host") ≡ some host
  -- The standard names are different names.
  pub content_type_alone :
      (same content_encoding content_type ≡ Bool.false)
      × (same vary content_type ≡ Bool.false)
      × (same cache_control content_type ≡ Bool.false)
      × (same connection content_type ≡ Bool.false)
      × (same host content_length ≡ Bool.false)
