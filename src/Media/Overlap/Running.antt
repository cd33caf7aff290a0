-- ===== src/Media/Overlap/Running.antt =====
-- How many uploads of the media page run.
use audio_server.Common.{
  Bool, List, [], ap, arith, false, get_elem?, refl, set, some, suc, true, zero, ℕ, ◌+◌, ◌++◌, ◌∷◌,
  ◌≡◌, ◌≤◌,
}
use audio_server.Media.Overlap.{Job, Stage, finished}

abbrev pub one_if : Bool → ℕ
one_if true = 1
one_if false = 0

pub one_if-le : (b : Bool) → one_if b ≤ 1
one_if-le true = omega arith
one_if-le false = omega arith

pub one_if-pos : (b : Bool) → 1 ≤ one_if b → b ≡ true
one_if-pos true h = refl
one_if-pos false h = absurd (omega arith)

module _ {V : Type 0} where
  abbrev pub is_running : Stage V → Bool
  is_running (finished entry) = false
  is_running _ = true

  -- How many calls have not come to their end.
  abbrev pub running : List (Job V) → ℕ
  running [] = 0
  running (job ∷ jobs) = one_if (is_running job.stage) + running jobs

  pub running-append :
      (jobs : List (Job V)) (job : Job V)
      → running (jobs ++ job ∷ []) ≡ running jobs + one_if (is_running job.stage)
  running-append [] job = omega arith
  running-append (j ∷ jobs) job = omega (arith, running-append jobs job)

  pub running-set :
      (jobs : List (Job V)) (k : ℕ) (job job' : Job V)
      → get_elem? jobs k ≡ some job
      → running (set jobs k job') + one_if (is_running job.stage)
        ≡ running jobs + one_if (is_running job'.stage)
  running-set [] k job job' h = absurd cc
  running-set (j ∷ jobs) zero job job' h =
      let same : j ≡ job = ground arith in
      omega (arith, ap (λ (x : Job V). one_if (is_running x.stage)) same)
  running-set (j ∷ jobs) (suc k) job job' h = omega (arith, running-set jobs k job job' h)
