-- ===== src/Terminal/WriteAll/Tests.antt =====
-- A writer (terminalwriteall.cpp) that takes at most three bytes at a time.
use win_remote_control.Prelude.{
  ℕ, ◌≤◌, min, ◌≡◌, refl, Bool, true, some, List, [], ◌∷◌, ◌++◌, arith, ◌==◌, length, take,
}
use win_remote_control.Terminal.WriteAll.{TerminalWriteResult, WriteAnswer, write_all_terminal_data}
use win_remote_control.Terminal.WriteAll.Progress.{IsWriter, write_all_terminal_data_delivers}

abbrev three_at_most : List ℕ → List ℕ → List ℕ × WriteAnswer
three_at_most sent bytes = (
  sent ++ take (min 3 (length bytes)) bytes,
  record { accepted = true; written = min 3 (length bytes); error_code = 0 },
)

abbrev always : List ℕ → List ℕ × Bool
always sent = (sent, true)

three_at_most_IsWriter : IsWriter three_at_most always (λ sent. sent)
three_at_most_IsWriter = record {
  bounded = λ sent bytes. omega arith;
  delivers = λ sent bytes good. refl;
  refuses = λ sent bytes bad. cc;
  asks = λ sent. refl;
}

abbrev five : List ℕ
five = 1 ∷ (2 ∷ (3 ∷ (4 ∷ (5 ∷ []))))

write_all_terminal_data_delivers_example :
    (t : List ℕ) × (r : TerminalWriteResult) × (write_all_terminal_data three_at_most always
        (9 ∷ [])
        five
      ≡ some (t, r))
    × (r.bytes_written ≤ length five)
    × (r.succeeded ≡ (r.bytes_written == length five))
    × (t ≡ 9 ∷ [] ++ take r.bytes_written five)
write_all_terminal_data_delivers_example =
    write_all_terminal_data_delivers three_at_most always (λ sent. sent) (9 ∷ []) five
      three_at_most_IsWriter
