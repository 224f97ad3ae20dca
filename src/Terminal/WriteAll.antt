-- ===== src/Terminal/WriteAll.antt =====
-- WriteAllTerminalData (src/core/terminal/terminalwriteall.h and .cpp): writes a buffer piece by
-- piece. The two callbacks and what they change are parameters: `write` gets the bytes that are left,
-- and its count is taken as 0 where the source's is not positive, which it treats alike.
pub mod Progress
mod Tests
use win_remote_control.Prelude.{
  Outcome, ok, err, passed, ℕ, zero, suc, ◌+◌, ◌-◌, ◌*◌, ◌/◌, ◌%◌, ◌^◌, ◌≤◌, ◌<◌, min, max, ◌≡◌,
  refl, sym, ap, subst, ◌∙◌, ◌≢◌, ◌↔◌, ◌⊎◌, inl, inr, Bool, true, false, not, ◌&&◌, ◌||◌, Option,
  none, some, List, [], ◌∷◌, ◌++◌, map, Memᴰ, append-nil, append_assoc, arith, String, str_eq,
  str_eq_iff, ltb, leb, ◌==◌, if◌then◌else◌, ltb→lt, lt→ltb, leb→le, ==_iff, tests, Bool-cases,
  Option-cases, length, take, drop, length-append, length-drop, take-append_length,
  drop-append_length, List-cases, take_all, length-take, byte_at, write_le, write_be, read_le,
  read_be, byte_at-append, take-append, drop-append, byte_at-skip, drop-skip, take-skip,
}

pub record TerminalWriteResult : Type 0 where
  pub succeeded : Bool
  pub bytes_written : ℕ
  pub error_code : ℕ

-- What the write callback returns and stores through its pointers.
pub record WriteAnswer : Type 0 where
  pub accepted : Bool
  pub written : ℕ
  pub error_code : ℕ

module _ {S : Type 0} (write : S → List ℕ → S × WriteAnswer) (should_continue : S → S × Bool) where
  -- The while loop and what follows it. `none`: the fuel has run out.
  unfoldable pub write_from : ℕ → S → List ℕ → ℕ → Option (S × TerminalWriteResult)
  write_from zero s data_bytes written = none
  write_from (suc fuel) s data_bytes written =
      let finish : S → Option (S × TerminalWriteResult) = λ s'. some (
        s',
        record {
          succeeded = written == length data_bytes;
          bytes_written = written;
          error_code = 0;
        },
      ) in
      let (s1, go_on) = should_continue s in
      let (s2, answer) = write s1 (drop written data_bytes) in
      let stop : Option (S × TerminalWriteResult) = some (
        s2,
        record { succeeded = false; bytes_written = written; error_code = answer.error_code },
      ) in
      let rest = write_from fuel s2 data_bytes (written + answer.written) in
      if not (ltb written (length data_bytes))
      then finish s
      else if not go_on
      then finish s1
      else if not answer.accepted
      then stop
      else if answer.written == 0 || ltb (length data_bytes - written) answer.written
      then stop
      else rest

  unfoldable pub write_all_terminal_data : S → List ℕ → Option (S × TerminalWriteResult)
  write_all_terminal_data s data_bytes = write_from (suc (length data_bytes)) s data_bytes 0
