-- ===== src/Future/Network/Live.antt =====
-- A contract is submitted once, as soon as it has a result and a callback.
use dummy_concurrency.Base.{
  ℕ, ◌+◌, ◌≤◌, ◌==◌, ◌≡◌, ◌≢◌, refl, sym, ap, subst, ◌∙◌, if◌then◌else◌, Bool, true, false, not,
  ◌&&◌, List, [], ◌∷◌, ◌++◌, some, update, update_eq, update_ne, arith,
}
use native.Mathlib.Decide.{ℕ_discrete}
use dummy_concurrency.Future.Meeting.{Side, first, second}
use dummy_concurrency.Future.Network.Cells.{Value, Slots, put, result, unmade}
use dummy_concurrency.Future.Network.Handles.{
  World, Task, Callback, contract, compute, is_some, submit_if_met, put_value, set_callback,
}

abbrev pub flag : Bool → ℕ
flag b = if b then 1 else 0

-- How often the contract `c` stands among the tasks.
abbrev pub is_contract : ℕ → Task → ℕ
is_contract c (contract d) = flag (c == d)
is_contract c (compute function d) = 0

abbrev pub waits : ℕ → List (ℕ × Task) → ℕ
waits c [] = 0
waits c (t ∷ ts) = is_contract c t.1 + waits c ts

pub waits-append :
    (c : ℕ) (ts : List (ℕ × Task)) (t : ℕ × Task)
    → waits c (ts ++ t ∷ []) ≡ waits c ts + is_contract c t.1
waits-append c [] t = omega arith
waits-append c (u ∷ ts) t = omega (arith, waits-append c ts t)

-- Whether the contract has a result and a callback.
abbrev pub met : World → ℕ → Bool
met w c = is_some (result (w.slots c)) && is_some (w.callbacks c)

-- A contract with a result and a callback has been submitted, and one that has been submitted waits
-- or has run, once.
pub record Live (w : World) : Type 0 where
  pub once : (c : ℕ) → waits c w.tasks + w.ran c ≡ flag (w.submitted c)
  pub due : (c : ℕ) → met w c ≡ true → w.submitted c ≡ true
  pub fresh : (c : ℕ) → w.next ≤ c → (w.slots c ≡ unmade) × (w.submitted c ≡ false)

-- `submit_if_met` makes up for what a change of the contract `c` has left due.
record Owing (c : ℕ) (w : World) : Type 0 where
  once : (d : ℕ) → waits d w.tasks + w.ran d ≡ flag (w.submitted d)
  due : (d : ℕ) → c ≢ d → met w d ≡ true → w.submitted d ≡ true
  fresh : (d : ℕ) → w.next ≤ d → (w.slots d ≡ unmade) × (w.submitted d ≡ false)

pub unmade-met : (w : World) (c : ℕ) → w.slots c ≡ unmade → met w c ≡ false
unfolding result
unmade-met w c e = rw (ap (λ s. is_some (result s)) e) refl

submit_if_met-Live : (c : ℕ) (w : World) → Owing c w → Live (submit_if_met c w)
unfolding submit_if_met
submit_if_met-Live c w o = submitted (met w c) (w.submitted c) refl refl
  where
    w' : World
    w' = record w {
      submitted = update w.submitted c true;
      tasks = w.tasks ++ (w.schedulers c, contract c) ∷ [];
    }

    submitted : (b s : Bool) → met w c ≡ b → w.submitted c ≡ s → Live (if b && not s then w' else w)
    submitted true false e e' = record {
      once = λ d.
          ground (arith, o.once d, o.once c, waits-append d w.tasks (w.schedulers c, contract c));
      due = λ d h. ground (arith, o.due d);
      fresh = λ d k. elim (ℕ_discrete c d) [
        | yes same ↦ ground (arith, unmade-met w d (o.fresh d k).0)
        | no ne ↦ ground (arith, o.fresh d k)
      ];
    }
    submitted true true e e' = record {
      once = o.once;
      due = λ d h. elim (ℕ_discrete c d) [
        | yes same ↦ ap w.submitted (sym same) ∙ e'
        | no ne ↦ o.due d ne h
      ];
      fresh = o.fresh;
    }
    submitted false s e e' = record {
      once = o.once;
      due = λ d h. elim (ℕ_discrete c d) [
        | yes same ↦ ground (arith, ap (met w) same)
        | no ne ↦ o.due d ne h
      ];
      fresh = o.fresh;
    }

put_at :
    (side : Side) (v : Value) (slots : ℕ → Slots) (c d : ℕ)
    → c ≡ d
    → slots d ≡ unmade
    → update slots c (put side v (slots c)) d ≡ unmade
unfolding put
put_at side v slots c d same e =
    subst (λ x. update slots c (put side v (slots c)) x ≡ unmade) same
      (update_eq slots c (put side v (slots c))
        ∙ ap (put side v) (ap slots same ∙ e)
        ∙ put_unmade side)
  where
    put_unmade : (side : Side) → put side v unmade ≡ unmade
    put_unmade first = refl
    put_unmade second = refl

pub put_value-Live :
    (side : Side) (c : ℕ) (v : Value) (w : World) → Live w → Live (put_value side c v w)
unfolding put_value put
put_value-Live side c v w l =
    submit_if_met-Live c (record w { slots = update w.slots c (put side v (w.slots c)) })
      (record {
        once = l.once;
        due = λ d ne h. ground (arith, l.due d);
        fresh = λ d k. elim (ℕ_discrete c d) [
          | yes same ↦ (put_at side v w.slots c d same (l.fresh d k).0, (l.fresh d k).1)
          | no ne ↦ rw (update_ne w.slots c (put side v (w.slots c)) d ne) (l.fresh d k)
        ];
      })

pub set_callback-Live :
    (c : ℕ) (cb : Callback) (scheduler : ℕ) (w : World)
    → Live w
    → Live (set_callback c cb scheduler w)
unfolding set_callback
set_callback-Live c cb scheduler w l =
    submit_if_met-Live c
      (record w {
        callbacks = update w.callbacks c (some cb);
        schedulers = update w.schedulers c scheduler;
      })
      (record { once = l.once; due = λ d ne h. ground (arith, l.due d); fresh = l.fresh })
