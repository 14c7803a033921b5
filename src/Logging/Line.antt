-- ===== src/Logging/Line.antt =====
-- The lines of the readable log: `RequestState`, `truncate_middle` and the two formats. A text is
-- its UTF-8 bytes, `none` a panic. The wall clock's rendering and that of the seconds, which are
-- chrono's and the formatter's of doubles, are fields of `Clock`.
pub mod Truncate
use http_nu.Common.{
  ℕ, zero, suc, ◌-◌, ◌/◌, Bool, true, false, not, ◌&&◌, List, [], ◌∷◌, ◌++◌, Option, none, some,
  Bytes, String, codes, utf8, decimal, leb, ltb, if◌then◌else◌, ◌>>=◌, length, take, drop, filter,
}

abbrev pub lit : String → Bytes
lit s = utf8 (codes s)

pub record RequestState : Type 0 where
  pub method : Bytes
  pub path : Bytes
  pub trusted_ip : Option Bytes
  pub start_time : ℕ
  pub status : Option ℕ
  pub latency_ms : Option ℕ

-- The instant, in nanoseconds, of an event, `Local::now()` as the log writes it, and a number of
-- nanoseconds as `{:>6.1}` writes its seconds.
pub record Clock : Type 0 where
  pub now : ℕ
  pub timestamp : Bytes
  pub seconds : ℕ → Bytes

-- A byte that goes on a character.
unfoldable pub is_continuation : ℕ → Bool
is_continuation c = leb 0x80 c && ltb c 0xc0

-- `str::is_char_boundary`, which slicing asserts.
unfoldable pub is_char_boundary : ℕ → Bytes → Bool
unfolding is_continuation
is_char_boundary zero s = true
is_char_boundary (suc zero) (_ ∷ []) = true
is_char_boundary (suc zero) (_ ∷ c ∷ s) = not (is_continuation c)
is_char_boundary (suc n) [] = false
is_char_boundary (suc n) (_ ∷ s) = is_char_boundary n s

abbrev pub dots : Bytes
dots = b'.' ∷ b'.' ∷ b'.' ∷ []

unfoldable pub truncate_middle : Bytes → ℕ → Option Bytes
unfolding is_char_boundary
truncate_middle s max_len =
    let keep = (max_len - 3) / 2 in
    if leb (length s) max_len
    then some s
    else if is_char_boundary keep s && is_char_boundary (length s - keep) s
    then some (take keep s ++ dots ++ drop (length s - keep) s)
    else none

spaces : ℕ → Bytes
spaces zero = []
spaces (suc n) = b' ' ∷ spaces n

-- The padding that `{:<n}` and `{:>n}` add: they count characters.
unfoldable pub padding : ℕ → Bytes → Bytes
unfolding spaces is_continuation
padding n s = spaces (n - length (filter (λ c. not (is_continuation c)) s))

abbrev pub pad_right : ℕ → Bytes → Bytes
pad_right n s = s ++ padding n s

abbrev pub pad_left : ℕ → Bytes → Bytes
pad_left n s = padding n s ++ s

abbrev pub get_or : Bytes → Option Bytes → Bytes
get_or d none = d
get_or d (some s) = s

abbrev pub number_or : ℕ → Option ℕ → ℕ
number_or d none = d
number_or d (some n) = n

-- What both lines begin with.
unfoldable pub line_start : Clock → RequestState → Bytes → Bytes
unfolding padding
line_start c state path =
    c.timestamp
    ++ lit " "
    ++ pad_left 15 (get_or (lit "-") state.trusted_ip)
    ++ lit " "
    ++ pad_right 6 state.method
    ++ lit " "
    ++ pad_right 40 path
    ++ lit " "

abbrev pub answer_part : Option ℕ → Option ℕ → Bytes
answer_part (some status) (some latency) =
    decimal status ++ lit " " ++ pad_left 6 (decimal latency) ++ lit "ms "
answer_part _ _ = lit "... "

unfoldable pub format_active_line : Clock → RequestState → Option Bytes
unfolding truncate_middle line_start
format_active_line c state = truncate_middle state.path 40 >>= λ path. some (
    line_start c state path
    ++ answer_part state.status state.latency_ms
    ++ c.seconds (c.now - state.start_time)
    ++ lit "s")

unfoldable pub format_complete_line : Clock → RequestState → ℕ → ℕ → Option Bytes
unfolding truncate_middle line_start
format_complete_line c state duration_ms bytes = truncate_middle state.path 40 >>= λ path. some (
    line_start c state path
    ++ decimal (number_or 0 state.status)
    ++ lit " "
    ++ pad_left 6 (decimal (number_or 0 state.latency_ms))
    ++ lit "ms "
    ++ pad_left 6 (decimal duration_ms)
    ++ lit "ms "
    ++ pad_left 8 (decimal bytes)
    ++ lit "b")
