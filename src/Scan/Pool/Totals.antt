-- ===== src/Scan/Pool/Totals.antt =====
-- The collector's total, and what scan_tcp_async says of it.
use bye_bye_vpn.Common.{
  ℕ, ◌+◌, Bool, true, false, not, ◌||◌, List, [], ◌∷◌, ◌≡◌, refl, arith, inl, inr, Bool-cases,
  length, if◌then◌else◌,
}
use bye_bye_vpn.Scan.Worker.{WorkerResult}
use bye_bye_vpn.Scan.Pool.{add_result, Slot, collect}

-- The number `f` of every result that is taken, added up.
abbrev pub taken_sum : (WorkerResult → ℕ) → List Slot → ℕ
taken_sum f [] = 0
taken_sum f (slot ∷ slots) = (if slot.taken then f slot.result else 0) + taken_sum f slots

-- The number `f` of every result.
abbrev pub sum : (WorkerResult → ℕ) → List Slot → ℕ
sum f [] = 0
sum f (slot ∷ slots) = f slot.result + sum f slots

module _ (f : WorkerResult → ℕ) (add : (a b : WorkerResult) → f (add_result a b) ≡ f a + f b) where
  pub collect-taken_sum :
      (ready : ℕ → Bool) (i : ℕ) (slots : List Slot) (total : WorkerResult) (done : ℕ)
      → let c = collect ready i slots total done in
        f c.0 + taken_sum f slots ≡ f total + taken_sum f c.1
  unfolding collect
  collect-taken_sum ready i [] total done = omega arith
  collect-taken_sum ready i (slot ∷ slots) total done =
      elim (Bool-cases (slot.taken || not (ready i))) [
        | inl e ↦ rw e (omega (arith, collect-taken_sum ready (i + 1) slots total done))
        | inr e ↦
            let free : slot.taken ≡ false = ground arith in
            rw (e, free)
              (omega (
                arith,
                add total slot.result,
                collect-taken_sum ready (i + 1) slots (add_result total slot.result) (done + 1),
              ))
      ]

-- The results the slots hold do not change.
module _ (f : WorkerResult → ℕ) where
  pub collect-sum :
      (ready : ℕ → Bool) (i : ℕ) (slots : List Slot) (total : WorkerResult) (done : ℕ)
      → sum f (collect ready i slots total done).1 ≡ sum f slots
  unfolding collect
  collect-sum ready i [] total done = refl
  collect-sum ready i (slot ∷ slots) total done = elim (Bool-cases (slot.taken || not (ready i))) [
    | inl e ↦ rw e (omega (arith, collect-sum ready (i + 1) slots total done))
    | inr e ↦
        rw e
          (omega (arith, collect-sum ready (i + 1) slots (add_result total slot.result) (done + 1)))
  ]

abbrev pub waiting : List Slot → ℕ
waiting [] = 0
waiting (slot ∷ slots) = (if slot.taken then 0 else 1) + waiting slots

pub collect-waiting :
    (ready : ℕ → Bool) (i : ℕ) (slots : List Slot) (total : WorkerResult) (done : ℕ)
    → let c = collect ready i slots total done in
      (c.2 + waiting c.1 ≡ done + waiting slots)
      × (length c.1 ≡ length slots)
      × (((j : ℕ) → ready j ≡ true) → waiting c.1 ≡ 0)
unfolding collect
collect-waiting ready i [] total done = (omega arith, refl, λ h. refl)
collect-waiting ready i (slot ∷ slots) total done =
    let (kept, long, all_taken) = collect-waiting ready (i + 1) slots total done in
    let (kept', long', all_taken') =
      collect-waiting ready (i + 1) slots (add_result total slot.result) (done + 1) in
    elim (Bool-cases (slot.taken || not (ready i))) [
      | inl e ↦
          rw e (omega (arith, kept), omega (arith, long), λ h. ground (arith, e, h i, all_taken h))
      | inr e ↦
          let free : slot.taken ≡ false = ground arith in
          rw (e, free)
            (omega (arith, kept'), omega (arith, long'), λ h. omega (arith, all_taken' h))
    ]

abbrev pub abort_mark : WorkerResult → ℕ
abort_mark r = if r.aborted then 1 else 0

pub collect-aborted :
    (ready : ℕ → Bool) (i : ℕ) (slots : List Slot) (total : WorkerResult) (done : ℕ)
    → let c = collect ready i slots total done in
      c.0.aborted ≡ false
      → (total.aborted ≡ false) × (taken_sum abort_mark c.1 ≡ taken_sum abort_mark slots)
unfolding collect add_result
collect-aborted ready i [] total done = λ h. (h, refl)
collect-aborted ready i (slot ∷ slots) total done =
    elim (Bool-cases (slot.taken || not (ready i))) [
      | inl e ↦ rw e (λ h.
          let (clean, same) = collect-aborted ready (i + 1) slots total done h in
          (clean, omega (arith, same)))
      | inr e ↦
          let free : slot.taken ≡ false = ground arith in
          rw (e, free)
            (λ h.
              let (clean, same) =
                collect-aborted ready (i + 1) slots (add_result total slot.result) (done + 1) h in
              (ground (arith, clean), ground (arith, clean, same)))
    ]
