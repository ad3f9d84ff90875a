-- ===== src/Aprun/Sections.antt =====
-- scripts/lib/CIME/aprun.py: the sections of the command cover the tasks, each with its threads.
use cime.Common.{
  ℕ, zero, suc, ◌+◌, ◌≡◌, refl, ap, sym, ◌∙◌, List, [], ◌∷◌, ◌++◌, ok, ◌==◌, nat_eq, arith, length,
  Bool-cases, inl, inr, ok_of_bind,
}
use cime.Aprun.{Section, Layout, Limits, tasks_on_node, add_section, lay_out, lay_out_all}

repeat : ℕ → ℕ → List ℕ
repeat zero t = []
repeat (suc n) t = t ∷ repeat n t

-- The threads of each task, section by section.
pub threads_of : List Section → List ℕ
unfolding repeat
threads_of [] = []
threads_of (s ∷ ss) = repeat s.task_count s.thread_count ++ threads_of ss

join_assoc : (xs ys zs : List ℕ) → (xs ++ ys) ++ zs ≡ xs ++ (ys ++ zs)
join_assoc [] ys zs = refl
join_assoc (x ∷ xs) ys zs = ap (λ us. x ∷ us) (join_assoc xs ys zs)

join_nil : (xs : List ℕ) → xs ++ [] ≡ xs
join_nil [] = refl
join_nil (x ∷ xs) = ap (λ us. x ∷ us) (join_nil xs)

threads_of-append :
    (ss more : List Section) → threads_of (ss ++ more) ≡ threads_of ss ++ threads_of more
unfolding threads_of
threads_of-append [] more = refl
threads_of-append (s ∷ ss) more =
    ap (λ ts. repeat s.task_count s.thread_count ++ ts) (threads_of-append ss more)
    ∙ sym (join_assoc (repeat s.task_count s.thread_count) (threads_of ss) (threads_of more))

repeat_longer : (n t : ℕ) (ts : List ℕ) → repeat n t ++ t ∷ ts ≡ repeat (suc n) t ++ ts
unfolding repeat
repeat_longer zero t ts = refl
repeat_longer (suc n) t ts = ap (λ us. t ∷ us) (repeat_longer n t ts)

add_section_lem :
    (limits : Limits) (count thread : ℕ) (l l' : Layout)
    → add_section limits count thread l ≡ ok l'
    → (threads_of l'.sections ≡ threads_of l.sections ++ repeat count thread)
      × (l'.total_task_count ≡ l.total_task_count + count)
unfolding add_section
add_section_lem limits count thread l l' h =
    let per_node = tasks_on_node limits count thread in
    let s : Section = record {
      task_count = count;
      tasks_per_node = per_node;
      thread_count = thread;
    } in
    let sections : l'.sections ≡ l.sections ++ s ∷ [] = ground (arith, h) in
    (
      ap threads_of sections
          ∙ threads_of-append l.sections (s ∷ [])
          ∙ ap (λ ts. threads_of l.sections ++ ts)
              (unfold threads_of in (join_nil (repeat count thread))),
      ground (arith, h),
    )

lay_out-covers :
    (limits : Limits) (count thread : ℕ) (l out : Layout) (ts : List ℕ)
    → lay_out limits count thread l ts ≡ ok out
    → (threads_of out.sections ≡ threads_of l.sections ++ (repeat count thread ++ ts))
      × (out.total_task_count ≡ l.total_task_count + count + length ts)
unfolding lay_out
lay_out-covers limits count thread l out [] h =
    let (covers, total) = add_section_lem limits count thread l out h in
    (
      covers ∙ ap (λ us. threads_of l.sections ++ us) (sym (join_nil (repeat count thread))),
      omega (arith, total),
    )
lay_out-covers limits count thread l out (t ∷ ts) h = elim (Bool-cases (t == thread)) [
  | inl same ↦
      let (covers, total) = lay_out-covers limits (suc count) thread l out ts (ground (arith, h)) in
      let here : t ≡ thread = ground arith in
      (
        covers
            ∙ ap (λ us. threads_of l.sections ++ us)
                (sym (repeat_longer count thread ts)
                  ∙ ap (λ u. repeat count thread ++ u ∷ ts) (sym here)),
        omega (arith, total),
      )
  | inr other ↦
      let (l', added, rest) = ok_of_bind (add_section limits count thread l) _ (rw other at h) in
      let (covers', total') = add_section_lem limits count thread l l' added in
      let (covers, total) = lay_out-covers limits 1 t _ out ts rest in
      (
        covers
            ∙ ap (λ us. us ++ (repeat 1 t ++ ts)) covers'
            ∙ join_assoc (threads_of l.sections) (repeat count thread) (repeat 1 t ++ ts)
            ∙ ap (λ us. threads_of l.sections ++ (repeat count thread ++ us))
                (unfold repeat in refl),
        omega (arith, total, total'),
      )
]

-- The sections cover `maxt`: each task, in order, with its number of threads.
pub lay_out_all-covers :
    (limits : Limits) (maxt : List ℕ) (out : Layout)
    → lay_out_all limits maxt ≡ ok out
    → (threads_of out.sections ≡ maxt) × (out.total_task_count ≡ length maxt)
unfolding lay_out_all
lay_out_all-covers limits [] out h = cc
lay_out_all-covers limits (t ∷ ts) out h =
    let (covers, total) = lay_out-covers limits 1 t _ out ts h in
    (covers ∙ (unfold threads_of repeat in refl), omega (arith, total))
