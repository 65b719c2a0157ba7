-- ===== src/Versions/Safety/Agents.antt =====
-- What an agent token cannot do (`AssertAgentMayMovePointer` and `AssertAdminAction` of
-- internal/versions/deploy.go), whatever operation it calls.
use pages.Common.{Bool, ap, arith, false, inl, inr, refl, some, sym, true, ℕ, ◌||◌, ◌∙◌, ◌≡◌}
use pages.Common.Rows.{some_inj}
use pages.Versions.Guards.{is_user, point_at}
use pages.Versions.Invariant.Writes.{Inv}
use pages.Versions.Lifecycle.{delete_row, new_page}
use pages.Versions.Prepare.{Platform}
use pages.Versions.Safety.Rows.{
  Has, IsLive-find_page, insert_page-Has, step_induction, update_page-Has,
}
use pages.Versions.Spec.Rules.{
  IsLive, MayMove, Write, creates, deletes, describes, flags, logs, points, restores, stamps,
  stores,
}
use pages.Versions.Step.{Op, step}
use pages.Versions.Store.{
  Actor, PageRow, Store, find_page, insert_version, update_version, write_audit,
}

-- The row answers to the same readers: pointer, deletion, takedown and gate are as before.
pub record Unmoved (page q : PageRow) : Type 0 where
  pub same_pointer : q.published_version_id ≡ page.published_version_id
  pub same_deletion : q.deleted_at ≡ page.deleted_at
  pub same_disabled : q.disabled ≡ page.disabled
  pub same_gate : q.require_approval ≡ page.require_approval

pub record SameFlags (page q : PageRow) : Type 0 where
  pub same_disabled : q.disabled ≡ page.disabled
  pub same_gate : q.require_approval ≡ page.require_approval

abbrev is_held : PageRow → Bool
is_held page = page.disabled || page.require_approval

agent_may_not_move :
    (a : Actor) (page q other_page : PageRow)
    → is_user a ≡ false
    → is_held page ≡ true
    → Unmoved page q
    → other_page ≡ q
    → MayMove a other_page
    → ⊥
agent_may_not_move a page q other_page bot held u e (inl person) = cc
agent_may_not_move a page q other_page bot held u e (inr (up, open_page)) =
    let d = ap (λ (r : PageRow). r.disabled) e in
    let g = ap (λ (r : PageRow). r.require_approval) e in
    ground (arith, d, g, u.same_disabled, u.same_gate)

-- The live page that a statement names is the row found at its id.
live_row_is :
    (t : Store) (live : PageRow) (id : ℕ) (q : PageRow)
    → Inv t
    → IsLive live t
    → find_page id t ≡ some q
    → live.id ≡ id
    → live ≡ q
live_row_is t live id q i l at same =
    some_inj (sym (IsLive-find_page t live i l) ∙ ap (λ (j : ℕ). find_page j t) same ∙ at)

agent_keeps-Write :
    {a : Actor} (page : PageRow) (id : ℕ) (t u : Store)
    → is_user a ≡ false
    → is_held page ≡ true
    → Inv t
    → Write a t u
    → Has (Unmoved page) id t
    → Has (Unmoved page) id u
unfolding write_audit insert_version update_version find_page
agent_keeps-Write page id t _ bot held i (logs _ _ _ _) h = h
agent_keeps-Write page id t _ bot held i (describes j f k l) h =
    update_page-Has (Unmoved page) id j f t k.same_id
      (λ q _ _ u. record {
        same_pointer = k.same_pointer q ∙ u.same_pointer;
        same_deletion = k.same_deletion q ∙ u.same_deletion;
        same_disabled = l.same_disabled q ∙ u.same_disabled;
        same_gate = l.same_gate q ∙ u.same_gate;
      })
      h
agent_keeps-Write page id t _ bot held i (flags j f k person) h = absurd cc
agent_keeps-Write page id t _ bot held i (points live v _ l _ _ _ may) h =
    update_page-Has (Unmoved page) id live.id (point_at v t.now) t (λ p. refl)
      (λ q at same u.
        absurd
          (agent_may_not_move _ page q live bot held u (live_row_is t live id q i l at same) may))
      h
agent_keeps-Write page id t _ bot held i (deletes live l may) h =
    update_page-Has (Unmoved page) id live.id (delete_row t.now) t (λ p. refl)
      (λ q at same u.
        absurd
          (agent_may_not_move _ page q live bot held u (live_row_is t live id q i l at same) may))
      h
agent_keeps-Write page id t _ bot held i (restores _ _ _ _ person) h = absurd cc
agent_keeps-Write page id t _ bot held i (creates slug title client workspace gate _) h =
    insert_page-Has (Unmoved page) id (new_page slug title client workspace gate) t i h
agent_keeps-Write page id t _ bot held i (stores _ _ _ _ _) h = h
agent_keeps-Write page id t _ bot held i (stamps _ _ _ _ _ _ _ _ _) h = h

SameFlags-again :
    (page q r : PageRow)
    → SameFlags page q
    → q.disabled ≡ r.disabled
    → q.require_approval ≡ r.require_approval
    → SameFlags page r
SameFlags-again page q r u d g = record {
  same_disabled = sym d ∙ u.same_disabled;
  same_gate = sym g ∙ u.same_gate;
}

agent_keeps_flags-Write :
    {a : Actor} (page : PageRow) (id : ℕ) (t u : Store)
    → is_user a ≡ false
    → Inv t
    → Write a t u
    → Has (SameFlags page) id t
    → Has (SameFlags page) id u
unfolding write_audit insert_version update_version find_page
agent_keeps_flags-Write page id t _ bot i (logs _ _ _ _) h = h
agent_keeps_flags-Write page id t _ bot i (describes j f k l) h =
    update_page-Has (SameFlags page) id j f t k.same_id
      (λ q _ _ u. SameFlags-again page q (f q) u (sym (l.same_disabled q)) (sym (l.same_gate q))) h
agent_keeps_flags-Write page id t _ bot i (flags j f k person) h = absurd cc
agent_keeps_flags-Write page id t _ bot i (points live v _ _ _ _ _ _) h =
    update_page-Has (SameFlags page) id live.id (point_at v t.now) t (λ p. refl)
      (λ q _ _ u. SameFlags-again page q (point_at v t.now q) u refl refl) h
agent_keeps_flags-Write page id t _ bot i (deletes live _ _) h =
    update_page-Has (SameFlags page) id live.id (delete_row t.now) t (λ p. refl)
      (λ q _ _ u. SameFlags-again page q (delete_row t.now q) u refl refl) h
agent_keeps_flags-Write page id t _ bot i (restores _ _ _ _ person) h = absurd cc
agent_keeps_flags-Write page id t _ bot i (creates slug title client workspace gate _) h =
    insert_page-Has (SameFlags page) id (new_page slug title client workspace gate) t i h
agent_keeps_flags-Write page id t _ bot i (stores _ _ _ _ _) h = h
agent_keeps_flags-Write page id t _ bot i (stamps _ _ _ _ _ _ _ _ _) h = h

-- No operation of an actor that is not a person changes what a taken-down or gated page serves:
-- its pointer, deletion, takedown and gate are as they were. The tables satisfy the invariant.
pub agent_keeps_held_page :
    (env : Platform) (now : ℕ) (a : Actor) (op : Op) (s : Store) (id : ℕ) (page : PageRow)
    → Inv s
    → is_user a ≡ false
    → find_page id s ≡ some page
    → page.disabled || page.require_approval ≡ true
    → (q : PageRow) × (find_page id (step env (now, a, op) s) ≡ some q) × Unmoved page q
unfolding find_page
agent_keeps_held_page env now a op s id page i bot at held =
    step_induction (Has (Unmoved page) id) env now a op s
      (λ t u j w h. agent_keeps-Write page id t u bot held j w h) i
      (
        page,
        at,
        record {
          same_pointer = refl;
          same_deletion = refl;
          same_disabled = refl;
          same_gate = refl;
        },
      )

-- No operation of an actor that is not a person takes a page down, ends its takedown, or opens or
-- closes its approval gate.
-- The tables satisfy the invariant.
pub agent_keeps_flags :
    (env : Platform) (now : ℕ) (a : Actor) (op : Op) (s : Store) (id : ℕ) (page : PageRow)
    → Inv s
    → is_user a ≡ false
    → find_page id s ≡ some page
    → (q : PageRow) × (find_page id (step env (now, a, op) s) ≡ some q) × SameFlags page q
unfolding find_page
agent_keeps_flags env now a op s id page i bot at =
    step_induction (Has (SameFlags page) id) env now a op s
      (λ t u j w h. agent_keeps_flags-Write page id t u bot j w h) i
      (page, at, record { same_disabled = refl; same_gate = refl })
