-- ===== src/Future/Many/TryFirst/Freeing.antt =====
-- Every node of `TryFirstContract` is deleted once.
use dummy_concurrency.Base.{
  ℕ, ◌+◌, ◌^◌, ◌≤◌, ◌<◌, ◌≡◌, refl, sym, ap, subst, ◌∙◌, true, Option, none, some, List, [], ◌∷◌,
  count, update, update_eq, arith,
}
use dummy_concurrency.Base.Links.{Linked, Linked-update}
use dummy_concurrency.Future.Expected.{Expected}
use dummy_concurrency.Future.OneAll.{Result, rendezvous, completed, in_progress, finishing}
use dummy_concurrency.Future.Many.Order.{is_completed, made, has_died, Core, storing_alive}
use dummy_concurrency.Future.Many
use dummy_concurrency.Future.Many.TryFirst.{
  Nodes, empty, Adding, creating, pushing, Running, same_node, try_first,
}

pub same_node_lem : (p q : Option ℕ) → same_node p q ≡ true → p ≡ q
same_node_lem none none h = refl
same_node_lem none (some j) h = absurd (ground arith)
same_node_lem (some i) none h = absurd (ground arith)
same_node_lem (some i) (some j) h = ap (λ k. some k) (ground arith)

abbrev pub pushed : Many.Pc Adding → ℕ
pushed (Many.Pc.storing creating) = 0
pushed (Many.Pc.storing (pushing e)) = 0
pushed p = 1

pub made-pushed : (p : Many.Pc Adding) → made p ≡ 1 → pushed p ≡ 1
made-pushed (Many.Pc.storing l) h = absurd (ground arith)
made-pushed (Many.Pc.answered r) h = refl
made-pushed Many.Pc.over h = refl

-- The first node that is not deleted.
abbrev pub head : Many.Object (Option ℕ) → Option ℕ → Option ℕ
head Many.Object.alive results = results
head (Many.Object.deleting d) results = d
head Many.Object.gone results = none

abbrev pub NodeContract : Type 0
NodeContract = Many.Contract Nodes Adding Running (Option ℕ)

pub record Inv (s : NodeContract) (ys : List ℕ) : Type 0 where
  pub linked : Linked s.store.next (head s.object s.store.results) ys
  pub counted : (j : ℕ) → s.store.deleted j + count j ys ≡ pushed (s.pc j)
  pub kept : has_died s.object ≡ 0 → (j : ℕ) → s.store.deleted j ≡ 0

abbrev pub Holds : NodeContract → Type 0
Holds s = (ys : List ℕ) × Inv s ys

pub create-Holds :
    {E T : Type 0} (n : ℕ) (result : ℕ → Expected E T)
    → Holds (Many.create n (try_first result) empty)
create-Holds n result = ([], record { linked = refl; counted = λ j. refl; kept = λ h j. refl })

module _ {E T : Type 0} (n : ℕ) (result : ℕ → Expected E T) (pos : 0 < n) (few : n + 1 < 2 ^ 29)
    {s : NodeContract} (v : Core n (try_first result) s) where
  -- An access of a producer that pushes no node.
  pub walks :
      {ys : List ℕ} (i : ℕ) (p : Many.Pc Adding)
      → pushed p ≡ pushed (s.pc i)
      → Inv s ys
      → Inv (record s { pc = update s.pc i p }) ys
  walks {ys} i p e w = record {
    linked = w.linked;
    counted = λ j. ground (arith, w.counted j, ap pushed (update_eq s.pc i p), e);
    kept = w.kept;
  }

  -- The node `i` is written and, if the exchange succeeds, pushed.
  pub links :
      {ys : List ℕ} (i : ℕ) (e e' : Option ℕ)
      → s.pc i ≡ Many.Pc.storing (pushing e)
      → Inv s ys
      → Inv
          (record s {
            store = record s.store { next = update s.store.next i e };
            pc = update s.pc i (Many.Pc.storing (pushing e'));
          })
          ys
  links {ys} i e e' at w = record {
    linked =
        Linked-update s.store.next i e (head s.object s.store.results) ys
          (omega (arith, w.counted i, ap pushed at)) w.linked;
    counted = λ j. ground (arith, w.counted j, ap pushed at);
    kept = w.kept;
  }

  pub pushes :
      {ys : List ℕ} (i : ℕ) (e : Option ℕ) (p : Many.Pc Adding)
      → i < n
      → s.pc i ≡ Many.Pc.storing (pushing e)
      → s.store.results ≡ e
      → pushed p ≡ 1
      → Inv s ys
      → Inv
          (record s {
            store = record s.store { next = update s.store.next i e; results = some i };
            pc = update s.pc i p;
          })
          (i ∷ ys)
  pushes {ys} i e p lt at same done w =
      let lives : has_died s.object ≡ 0 =
        storing_alive n (try_first result) pos few v i lt (ap made at) in
      let absent : count i ys ≡ 0 = omega (arith, w.counted i, ap pushed at) in
      record {
        linked = (
          head_alive s.object (some i) lives,
          subst (λ q. Linked (update s.store.next i e) q ys)
              (head_alive s.object s.store.results lives ∙ same ∙ sym (update_eq s.store.next i e))
              (Linked-update s.store.next i e (head s.object s.store.results) ys absent w.linked),
        );
        counted = λ j. ground (arith, w.counted j, absent, ap pushed at, done);
        kept = w.kept;
      }
    where
      head_alive : (o : Many.Object (Option ℕ)) (q : Option ℕ) → has_died o ≡ 0 → head o q ≡ q
      head_alive Many.Object.alive q h = refl
      head_alive (Many.Object.deleting d) q h = absurd (omega arith)
      head_alive Many.Object.gone q h = absurd (omega arith)

  -- `delete this` begins with `results_`.
  pub deletes :
      {ys : List ℕ} (r : Result) (pc : ℕ → Many.Pc Adding) (task : Many.Task Running)
      → is_completed r + has_died s.object ≤ 1
      → ((j : ℕ) → pushed (pc j) ≡ pushed (s.pc j))
      → Inv s ys
      → Inv
          (record s {
            pc = pc;
            task = task;
            object = Many.delete_on n (try_first result) r s.store s.object;
          })
          ys
  unfolding Many.delete_on
  deletes {ys} r pc task h same w = record {
    linked = subst (λ q. Linked s.store.next q ys) (sym (same_head r s.object h)) w.linked;
    counted = λ j. w.counted j ∙ sym (same j);
    kept = λ k. w.kept (still r s.object k);
  }
    where
      same_head :
          (q : Result) (o : Many.Object (Option ℕ))
          → is_completed q + has_died o ≤ 1
          → head (Many.delete_on n (try_first result) q s.store o) s.store.results
            ≡ head o s.store.results
      same_head completed Many.Object.alive k = refl
      same_head completed (Many.Object.deleting d) k = absurd (omega arith)
      same_head completed Many.Object.gone k = absurd (omega arith)
      same_head rendezvous o k = refl
      same_head in_progress o k = refl
      same_head finishing o k = refl

      still :
          (q : Result) (o : Many.Object (Option ℕ))
          → has_died (Many.delete_on n (try_first result) q s.store o) ≡ 0
          → has_died o ≡ 0
      still completed o k = absurd (omega arith)
      still rendezvous o k = k
      still in_progress o k = k
      still finishing o k = k

  -- A round of the loop of `DeleteResults`.
  pub frees_one :
      (ys : List ℕ) (x : ℕ)
      → s.object ≡ Many.Object.deleting (some x)
      → Inv s ys
      → Holds (record s {
        store = record s.store { deleted = update s.store.deleted x (s.store.deleted x + 1) };
        object = Many.Object.deleting (s.store.next x);
      })
  frees_one [] x at w = absurd (ground (arith, w.linked, ap (λ o. head o s.store.results) at))
  frees_one (y ∷ rest) x at w =
      let here : some y ≡ some x = sym w.linked.0 ∙ ap (λ o. head o s.store.results) at in
      let same : y ≡ x = ground (arith, here) in
      (
        rest,
        record {
          linked = subst (λ z. Linked s.store.next (s.store.next z) rest) same w.linked.1;
          counted = λ j. ground (arith, w.counted j, same);
          kept = λ k. absurd (omega arith);
        },
      )
