-- ===== src/EndToEnd/Feed/Once.antt =====
-- How often the feed of one connection tells an event, while the plugins publish and record events at
-- the same time.
use mathlib.Core.Path.{subst}
use audio_server.Common.{
  Bool, List, [], ap, arith, if◌then◌else◌, length, refl, reverse, suc, take, zero, ℕ, ◌+◌, ◌++◌,
  ◌∙◌, ◌∷◌, ◌≡◌, ◌≤◌,
}
use mathlib.Core.List.{reverse-cons}
use audio_server.Backend.AdminSession.{
  Command, lpush, ltrim, publish, publish_and_record, recent, sent,
}
use audio_server.EndToEnd.Feed.{Connection, told}

-- `Shuffle l k m`: the commands of `l` and those of `k`, each in their order, make `m`.
pub data Shuffle {A : Type 0} : List A → List A → List A → Type 0 where
  neither : Shuffle [] [] []
  left : {l k m : List A} → (a : A) → Shuffle l k m → Shuffle (a ∷ l) k (a ∷ m)
  right : {l k m : List A} → (a : A) → Shuffle l k m → Shuffle l (a ∷ k) (a ∷ m)

-- The commands of calls of `publishAndRecord`, in any order that keeps the order of each call.
pub data Calls {P : Type 0} : List P → List (Command P) → Type 0 where
  no_calls : Calls [] []
  call :
      {events : List P} {commands all : List (Command P)}
      → Calls events commands
      → (json : P) → Shuffle (publish_and_record json) commands all
      → Calls (json ∷ events) all

module _ {P : Type 0} (f : P → Bool) where
  abbrev one : Bool → ℕ
  one b = if b then 1 else 0

  -- How many payloads of a list meet a test.
  abbrev pub count : List P → ℕ
  count [] = 0
  count (x ∷ xs) = one (f x) + count xs

  abbrev publishes : Command P → ℕ
  publishes (publish json) = one (f json)
  publishes (lpush json) = 0
  publishes ltrim = 0

  abbrev pushes : Command P → ℕ
  pushes (publish json) = 0
  pushes (lpush json) = one (f json)
  pushes ltrim = 0

  abbrev total : (Command P → ℕ) → List (Command P) → ℕ
  total weight [] = 0
  total weight (c ∷ commands) = weight c + total weight commands

  total-append :
      (weight : Command P → ℕ) (xs ys : List (Command P))
      → total weight (xs ++ ys) ≡ total weight xs + total weight ys
  total-append weight [] ys = omega arith
  total-append weight (x ∷ xs) ys = omega (arith, total-append weight xs ys)

  total-Shuffle :
      (weight : Command P → ℕ) {l k m : List (Command P)}
      → Shuffle l k m
      → total weight m ≡ total weight l + total weight k
  total-Shuffle weight neither = refl
  total-Shuffle weight (left a s) = omega (arith, total-Shuffle weight s)
  total-Shuffle weight (right a s) = omega (arith, total-Shuffle weight s)

  -- At every point no more has been recorded than published, `p` and `n` counted in.
  abbrev Ahead : (p n : ℕ) → List (Command P) → Type 0
  Ahead p n l = (k : ℕ) → p + total pushes (take k l) ≤ n + total publishes (take k l)

  Ahead-tail :
      (p n : ℕ) (c : Command P) (l : List (Command P))
      → Ahead p n (c ∷ l)
      → Ahead (p + pushes c) (n + publishes c) l
  Ahead-tail p n c l h k = omega (arith, h (suc k))

  Ahead-Shuffle :
      {l k m : List (Command P)} (s : Shuffle l k m) (p n q r : ℕ)
      → Ahead p n l
      → Ahead q r k
      → Ahead (p + q) (n + r) m
  Ahead-Shuffle neither p n q r hl hk zero = omega (arith, hl zero, hk zero)
  Ahead-Shuffle neither p n q r hl hk (suc i) = omega (arith, hl zero, hk zero)
  Ahead-Shuffle (left a s) p n q r hl hk zero = omega (arith, hl zero, hk zero)
  Ahead-Shuffle (left {l = l} a s) p n q r hl hk (suc i) =
      omega
        (arith, Ahead-Shuffle s (p + pushes a) (n + publishes a) q r (Ahead-tail p n a l hl) hk i)
  Ahead-Shuffle (right a s) p n q r hl hk zero = omega (arith, hl zero, hk zero)
  Ahead-Shuffle (right {k = k} a s) p n q r hl hk (suc i) =
      omega
        (arith, Ahead-Shuffle s p n (q + pushes a) (r + publishes a) hl (Ahead-tail q r a k hk) i)

  call-Ahead : (json : P) → Ahead 0 0 (publish_and_record json)
  call-Ahead json zero = omega arith
  call-Ahead json (suc zero) = omega arith
  call-Ahead json (suc (suc zero)) = omega arith
  call-Ahead json (suc (suc (suc zero))) = omega arith
  call-Ahead json (suc (suc (suc (suc i)))) = omega arith

  Calls-Ahead : {events : List P} {all : List (Command P)} → Calls events all → Ahead 0 0 all
  Calls-Ahead no_calls zero = omega arith
  Calls-Ahead no_calls (suc k) = omega arith
  Calls-Ahead (call h json s) k = Ahead-Shuffle s 0 0 0 0 (call-Ahead json) (Calls-Ahead h) k

  Calls-publishes :
      {events : List P} {all : List (Command P)}
      → Calls events all
      → total publishes all ≡ count events
  Calls-publishes no_calls = refl
  Calls-publishes (call h json s) = omega (arith, total-Shuffle publishes s, Calls-publishes h)

  count-append : (xs ys : List P) → count (xs ++ ys) ≡ count xs + count ys
  count-append [] ys = omega arith
  count-append (x ∷ xs) ys = omega (arith, count-append xs ys)

  count-reverse : (l : List P) → count (reverse l) ≡ count l
  count-reverse [] = refl
  count-reverse (x ∷ xs) =
      ap count (reverse-cons x xs)
      ∙ count-append (reverse xs) (x ∷ [])
      ∙ omega (arith, count-reverse xs)

  count-take : (n : ℕ) (l : List P) → count (take n l) ≤ count l
  count-take zero l = omega arith
  count-take (suc n) [] = omega arith
  count-take (suc n) (x ∷ xs) = omega (arith, count-take n xs)

  count-recent :
      (commands : List (Command P)) (l : List P)
      → count (recent commands l) ≤ count l + total pushes commands
  unfolding recent
  count-recent [] l = omega arith
  count-recent (publish json ∷ commands) l = omega (arith, count-recent commands l)
  count-recent (lpush json ∷ commands) l = omega (arith, count-recent commands (json ∷ l))
  count-recent (ltrim ∷ commands) l =
      omega (arith, count-recent commands (take 200 l), count-take 200 l)

  count-sent : (commands : List (Command P)) → count (sent commands) ≡ total publishes commands
  unfolding sent
  count-sent [] = refl
  count-sent (publish json ∷ commands) = omega (arith, count-sent commands)
  count-sent (lpush json ∷ commands) = omega (arith, count-sent commands)
  count-sent (ltrim ∷ commands) = omega (arith, count-sent commands)

  take-append : {A : Type 0} (xs ys : List A) → take (length xs) (xs ++ ys) ≡ xs
  take-append [] ys = refl
  take-append (x ∷ xs) ys = ap (λ l. x ∷ l) (take-append xs ys)

  -- A connection tells no event more often than the plugins have published it, not counting what is
  -- published between the reading of the history and the subscription, in whatever order the commands
  -- of their calls reach Redis: an event of the history does not come again, and of an event that is
  -- published once, in between, nothing is told.
  pub told_once :
      (c : Connection P) (events : List P)
      → Calls events (c.before ++ (c.between ++ c.after))
      → count (told (c ∷ [])) + count (sent c.between) ≤ count events
  unfolding told
  told_once c events h =
      let all = c.before ++ (c.between ++ c.after) in
      let ahead =
        subst (λ l. 0 + total pushes l ≤ 0 + total publishes l)
          (take-append c.before (c.between ++ c.after)) (Calls-Ahead h (length c.before)) in
      omega (
        arith,
        ahead,
        count-append (reverse (sent c.after)) (recent c.before [] ++ []),
        count-append (recent c.before []) [],
        count-reverse (sent c.after),
        count-recent c.before [],
        count-sent c.after,
        count-sent c.between,
        Calls-publishes h,
        total-append publishes c.before (c.between ++ c.after),
        total-append publishes c.between c.after,
      )
