-- ===== src/Compression/Instance.antt =====
-- An encoder that copies what it takes: the contract of `Encoder` can be met.
use http_nu.Common.{◌≡◌, refl, ◌<◌, true, false, [], ◌∷◌, ◌++◌, Bytes, take, drop, length, arith}
use http_nu.Compression.{Operation, process, flush, finish, Compressed, is_done, Encoder}

abbrev pub copied : Operation → Bytes → Bytes → Compressed Bytes
copied op s input = record {
  success = true;
  taken = length input;
  output = input;
  next = s ++ input;
}

take-length : (xs : Bytes) → take (length xs) xs ≡ xs
take-length [] = refl
take-length (x ∷ xs) = λ i. x ∷ take-length xs i

drop-length : (xs : Bytes) → drop (length xs) xs ≡ []
drop-length [] = refl
drop-length (x ∷ xs) = drop-length xs

always_done :
    (op : Operation) (input : Bytes) → is_done op true false (drop (length input) input) ≡ true
always_done process input = rw (drop-length input)
always_done flush input = refl
always_done finish input = refl

pub fed_copied : (op : Operation) (s input : Bytes) → s ++ input ≡ s ++ take (length input) input
fed_copied op s input = rw (take-length input)

pub never_more :
    (op : Operation) (s input : Bytes)
    → true ≡ true
    → is_done op true false (drop (length input) input) ≡ false
    → 0 < 0
never_more op s input g d = absurd (ground (arith, always_done op input))

abbrev pub copying : Encoder
copying = record {
  State = Bytes;
  compress = copied;
  is_finished = λ s. true;
  has_more_output = λ s. false;
  fed = λ s. s;
  emitted = λ s. s;
  decode = λ s. s;
  work = λ op s input. 0;
  fed-compress = fed_copied;
  emitted-compress = λ op s input. refl;
  decode-flush = λ s input h. refl;
  decode-finish = λ s input h. refl;
  work-compress = never_more;
}
