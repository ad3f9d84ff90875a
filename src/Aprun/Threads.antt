-- ===== src/Aprun/Threads.antt =====
-- scripts/lib/CIME/aprun.py: each task of each component gets at least the threads that the component
-- asks for, and the loops never leave the list.
use cime.Common.{
  inl, inr, ◌⊎◌, ℕ, zero, suc, ◌+◌, ◌*◌, ◌-◌, ◌≤◌, ◌<◌, ◌≡◌, refl, sym, ◌∙◌, subst, List, [], ◌∷◌,
  ok, arith, length, All, ok_of_bind, IsOk, IsOk-bind,
}
use cime.Aprun.{Component, larger, total_tasks, raise_at, raise_tasks, raise_all}

-- maxt[s], 0 where there is no such task
unfoldable pub threads_at : List ℕ → ℕ → ℕ
threads_at [] s = 0
threads_at (t ∷ ts) zero = t
threads_at (t ∷ ts) (suc s) = threads_at ts s

pub record IsRaised (ts us : List ℕ) : Type 0 where
  pub size : length us ≡ length ts
  pub kept : (k : ℕ) → threads_at ts k ≤ threads_at us k

IsRaised-trans : (ts us vs : List ℕ) → IsRaised ts us → IsRaised us vs → IsRaised ts vs
IsRaised-trans ts us vs h g = record {
  size = g.size ∙ h.size;
  kept = λ k. omega (arith, h.kept k, g.kept k);
}

raise_at-IsOk : (s n : ℕ) (ts : List ℕ) → s < length ts → IsOk (raise_at s n ts)
unfolding raise_at
raise_at-IsOk s n [] h = absurd (omega arith)
raise_at-IsOk zero n (t ∷ ts) h = (_, refl)
raise_at-IsOk (suc s) n (t ∷ ts) h =
    IsOk-bind (raise_at s n ts) _ (raise_at-IsOk s n ts (omega arith)) (λ us raised. (_, refl))

raise_at-size : (s n : ℕ) (ts us : List ℕ) → raise_at s n ts ≡ ok us → length us ≡ length ts
unfolding raise_at
raise_at-size s n [] us h = cc
raise_at-size zero n (t ∷ ts) us h = ground arith
raise_at-size (suc s) n (t ∷ ts) us h =
    let (vs, raised, last) = ok_of_bind (raise_at s n ts) _ h in
    ground (arith, raise_at-size s n ts vs raised)

raise_at-kept :
    (s n : ℕ) (ts us : List ℕ) (k : ℕ) → raise_at s n ts ≡ ok us → threads_at ts k ≤ threads_at us k
unfolding raise_at threads_at larger
raise_at-kept s n [] us k h = cc
raise_at-kept zero n (t ∷ ts) us zero h = ground arith
raise_at-kept zero n (t ∷ ts) us (suc k) h = ground arith
raise_at-kept (suc s) n (t ∷ ts) us zero h =
    let (vs, raised, last) = ok_of_bind (raise_at s n ts) _ h in ground arith
raise_at-kept (suc s) n (t ∷ ts) us (suc k) h =
    let (vs, raised, last) = ok_of_bind (raise_at s n ts) _ h in
    ground (arith, raise_at-kept s n ts vs k raised)

raise_at-reached : (s n : ℕ) (ts us : List ℕ) → raise_at s n ts ≡ ok us → n ≤ threads_at us s
unfolding raise_at threads_at larger
raise_at-reached s n [] us h = cc
raise_at-reached zero n (t ∷ ts) us h = ground arith
raise_at-reached (suc s) n (t ∷ ts) us h =
    let (vs, raised, last) = ok_of_bind (raise_at s n ts) _ h in
    ground (arith, raise_at-reached s n ts vs raised)

-- The tasks of the component are among the first `n`.
abbrev pub IsWithin : ℕ → Component → Type 0
IsWithin n c = (j : ℕ) → j < c.ntask → c.rootpe + j * c.pstrid < n

-- Each task of the component has at least the component's threads.
abbrev pub IsServed : List ℕ → Component → Type 0
IsServed maxt c = (j : ℕ) → j < c.ntask → c.nthrd ≤ threads_at maxt (c.rootpe + j * c.pstrid)

mul_below : (a b n : ℕ) → a ≤ b → a * n ≤ b * n
mul_below a b zero h = omega arith
mul_below a b (suc n) h = omega (arith, mul_below a b n h)

total_tasks_below : (total : ℕ) (cs : List Component) → total ≤ total_tasks total cs
unfolding total_tasks larger
total_tasks_below total [] = omega arith
total_tasks_below total (c ∷ cs) =
    let last = c.rootpe + c.ntask * c.pstrid + 1 - c.pstrid in
    ground (arith, total_tasks_below (larger last total) cs)

pub total_tasks-IsWithin :
    (total : ℕ) (cs : List Component) (n : ℕ) → total_tasks total cs ≤ n → All (IsWithin n) cs
unfolding total_tasks
total_tasks-IsWithin total [] n h = tt
total_tasks-IsWithin total (c ∷ cs) n h =
    let last = c.rootpe + c.ntask * c.pstrid + 1 - c.pstrid in
    let below = total_tasks_below (larger last total) cs in
    let over : last ≤ larger last total = unfold larger in ground arith in
    (
      λ j among.
          let product = mul_below (j + 1) c.ntask c.pstrid (omega arith) in
          omega (arith, below, over, product),
      total_tasks-IsWithin (larger last total) cs n h,
    )

first_or_later : (m n : ℕ) → m ≤ n → (m ≡ n) ⊎ (suc m ≤ n)
first_or_later m n h = ground arith

raise_tasks_lem :
    (left c2 : ℕ) (c : Component) (ts : List ℕ)
    → ((j : ℕ) → j < c2 + left → c.rootpe + j * c.pstrid < length ts)
    → (us : List ℕ) × (raise_tasks left c2 c ts ≡ ok us)
      × IsRaised ts us
      × ((j : ℕ) → c2 ≤ j → j < c2 + left → c.nthrd ≤ threads_at us (c.rootpe + j * c.pstrid))
unfolding raise_tasks
raise_tasks_lem zero c2 c ts within =
    (ts, refl, record { size = refl; kept = λ k. omega arith }, λ j from to. absurd (omega arith))
raise_tasks_lem (suc left) c2 c ts within =
    let s = c.rootpe + c2 * c.pstrid in
    let (us, raised) = raise_at-IsOk s c.nthrd ts (within c2 (omega arith)) in
    let size = raise_at-size s c.nthrd ts us raised in
    let (vs, done, more, served) =
      raise_tasks_lem left (suc c2) c us (λ j among. omega (arith, within j (omega arith), size)) in
    (
      vs,
      rw raised done,
      IsRaised-trans ts us vs
          (record { size = size; kept = λ k. raise_at-kept s c.nthrd ts us k raised }) more,
      λ j from to. elim (first_or_later c2 j from) [
        | inl first ↦
            subst (λ i. c.nthrd ≤ threads_at vs (c.rootpe + i * c.pstrid)) first
              (omega (arith, raise_at-reached s c.nthrd ts us raised, more.kept s))
        | inr later ↦ served j later (omega arith)
      ],
    )

pub raise_all_lem :
    (cs : List Component) (ts : List ℕ)
    → All (IsWithin (length ts)) cs
    → (us : List ℕ) × (raise_all cs ts ≡ ok us) × IsRaised ts us × All (IsServed us) cs
unfolding raise_all
raise_all_lem [] ts within = (ts, refl, record { size = refl; kept = λ k. omega arith }, tt)
raise_all_lem (c ∷ cs) ts within =
    let (us, raised, more, served) =
      raise_tasks_lem c.ntask 0 c ts (λ j among. within.0 j (omega arith)) in
    let (vs, done, more', rest) =
      raise_all_lem cs us (subst (λ n. All (IsWithin n) cs) (sym more.size) within.1) in
    (
      vs,
      rw raised done,
      IsRaised-trans ts us vs more more',
      (
        λ j among.
            omega
              (arith, served j (omega arith) (omega arith), more'.kept (c.rootpe + j * c.pstrid)),
        rest,
      ),
    )
