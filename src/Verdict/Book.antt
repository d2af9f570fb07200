-- ===== src/Verdict/Book.antt =====
-- src/cli/orchestrator.cpp: `ScoreBook`. Its score is an `int` that may fall below 0 before it is clamped.
use bye_bye_vpn.Common.{ℕ, List, [], ◌∷◌, ◌++◌, if◌then◌else◌, ℤ, pos, ◌-ℤ◌, ltb_ℤ, Bytes}

pub record ScoreBook : Type 0 where
  pub score : ℤ
  pub strong : List Bytes
  pub soft : List Bytes
  pub notes : List (Bytes × Bytes)

abbrev pub new_book : ScoreBook
new_book = record { score = pos 100; strong = []; soft = []; notes = [] }

unfoldable pub strong_signal : Bytes → ℕ → ScoreBook → ScoreBook
strong_signal msg penalty b = record b {
  strong = b.strong ++ msg ∷ [];
  score = b.score -ℤ pos penalty;
}

unfoldable pub soft_signal : Bytes → ℕ → ScoreBook → ScoreBook
soft_signal msg penalty b = record b { soft = b.soft ++ msg ∷ []; score = b.score -ℤ pos penalty }

unfoldable pub note : Bytes → Bytes → ScoreBook → ScoreBook
note tag msg b = record b { notes = b.notes ++ (tag, msg) ∷ [] }

-- std::clamp(score, 0, 100)
unfoldable pub clamp : ScoreBook → ScoreBook
clamp b = record b {
  score =
      if ltb_ℤ b.score (pos 0) then pos 0 else if ltb_ℤ (pos 100) b.score then pos 100 else b.score;
}
