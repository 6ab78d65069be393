-- ===== src/Json.antt =====
-- The spans of crates/muka-split/src/json.rs.
pub mod Scan
pub mod Bounds
pub mod Values
pub mod Total
pub mod Text
pub mod Members
pub mod Chain
pub mod Strings
pub mod Ends
use muka_ai_trim.Common.{ℕ, ◌-◌, ◌≤◌, Bool, leb, ◌&&◌, List, length, take, drop}

pub record Span : Type 0 where
  pub start : ℕ
  pub end : ℕ

-- `end - start`, which the source takes only of spans with `start <= end`.
unfoldable pub span_len : Span → ℕ
span_len s = s.end - s.start

-- `&buf[start..end]`, which panics unless `start <= end <= buf.len()`.
unfoldable pub slice : Span → List ℕ → List ℕ
slice s buf = take (s.end - s.start) (drop s.start buf)

-- Does `slice` accept the span?
abbrev pub is_inside : Span → List ℕ → Bool
is_inside s buf = leb s.start s.end && leb s.end (length buf)

-- A span that `slice` accepts.
pub record IsInside (s : Span) (buf : List ℕ) : Type 0 where
  pub ordered : s.start ≤ s.end
  pub within : s.end ≤ length buf
