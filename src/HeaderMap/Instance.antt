-- ===== src/HeaderMap/Instance.antt =====
-- A header map that meets the laws: a function from lower-case names to their values.
use http_nu.Common.{
  ◌≡◌, refl, false, List, [], ◌∷◌, ◌++◌, Text, Option, some, codes, if◌then◌else◌, leb, ltb, ◌&&◌,
  to_lowercase, text_eq, text_eq_iff, arith, lower_char,
}
use http_nu.HeaderMap.{HeaderMap}

abbrev pub name_in : Text → Option Text
name_in k = some (to_lowercase k)

pub same_name_in :
    (j k n : Text) → name_in j ≡ some n → name_in k ≡ some n → to_lowercase j ≡ to_lowercase k
same_name_in j k n p q = ground arith

pub content_type_is : name_in (codes "content-type") ≡ some (codes "content-type")
unfolding lower_char
content_type_is = refl

pub content_length_is : name_in (codes "content-length") ≡ some (codes "content-length")
unfolding lower_char
content_length_is = refl

pub host_is : name_in (codes "host") ≡ some (codes "host")
unfolding lower_char
host_is = refl

pub alone :
    (text_eq (codes "content-encoding") (codes "content-type") ≡ false)
    × (text_eq (codes "vary") (codes "content-type") ≡ false)
    × (text_eq (codes "cache-control") (codes "content-type") ≡ false)
    × (text_eq (codes "connection") (codes "content-type") ≡ false)
    × (text_eq (codes "host") (codes "content-length") ≡ false)
unfolding text_eq
alone = (refl, refl, refl, refl, refl)

abbrev pub list_headers : HeaderMap
list_headers = record {
  Map = Text → List Text;
  Name = Text;
  Val = Text;
  name_of = name_in;
  value_of = λ s. some s;
  static_value = λ s. s;
  same = text_eq;
  new = λ n. [];
  insert = λ h m v n. if text_eq m n then v ∷ [] else h n;
  append = λ h m v n. if text_eq m n then h n ++ v ∷ [] else h n;
  get_all = λ h n. h n;
  content_type = codes "content-type";
  content_encoding = codes "content-encoding";
  vary = codes "vary";
  cache_control = codes "cache-control";
  connection = codes "connection";
  content_length = codes "content-length";
  host = codes "host";
  is_status = λ s. leb 100 s && ltb s 1000;
  same_iff = text_eq_iff;
  get_all-new = λ n. refl;
  get_all-insert = λ h m n v. refl;
  get_all-append = λ h m n v. refl;
  same_name = same_name_in;
  content_type_name = content_type_is;
  content_length_name = content_length_is;
  host_name = host_is;
  content_type_alone = alone;
}
