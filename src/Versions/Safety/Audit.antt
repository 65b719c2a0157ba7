-- ===== src/Versions/Safety/Audit.antt =====
-- The audit log and the changes of the tables (`audit.Write`): what an operation writes goes with an
-- entry.
use pages.Common.{All, List, Option, Text, [], ap, refl, sym, ℕ, ◌++◌, ◌∙◌, ◌∷◌, ◌≡◌, ◌≢◌}
use pages.Versions.Spec.Invert.{moved_store}
use pages.Versions.Store.{Action, Actor, Entry, Metadata, PageRow, Store, update_page, write_audit}
use mathlib.Core.List.{append_assoc}

-- The log has grown by entries of the actor; without a new entry, and where `P` holds, the pages and
-- the versions are as they were.
pub record Audited (P : Type 0) (a : Actor) (s t : Store) : Type 0 where
  pub new : List Entry
  pub grown : t.audit_log ≡ new ++ s.audit_log
  pub by_actor : All (λ e. e.actor ≡ a) new
  pub silent : P → new ≡ [] → (t.pages ≡ s.pages) × (t.versions ≡ s.versions)

-- Of an operation's result.
abbrev pub Logs {ℓ} : {A : Type ℓ} → Type 0 → Actor → Store → A × Store → Type 0
Logs P a s r = Audited P a s r.1

append-By :
    (a : Actor) (xs ys : List Entry)
    → All (λ e. e.actor ≡ a) xs
    → All (λ e. e.actor ≡ a) ys
    → All (λ e. e.actor ≡ a) (xs ++ ys)
append-By a [] ys h k = k
append-By a (x ∷ xs) ys h k = (h.0, append-By a xs ys h.1 k)

append-empty : (xs ys : List Entry) → xs ++ ys ≡ [] → (xs ≡ []) × (ys ≡ [])
append-empty [] ys e = (refl, e)
append-empty (x ∷ xs) ys e = cc

module _ {a : Actor} where
  pub unchanged-Audited : (P : Type 0) (s : Store) → Audited P a s s
  unchanged-Audited P s = record {
    new = [];
    grown = refl;
    by_actor = tt;
    silent = λ _ _. (refl, refl);
  }

  -- An entry is written, whatever else was.
  pub written-new :
      (P : Type 0) (s u : Store) (act : Action) (page version : ℕ) (meta : Metadata)
      → u.audit_log ≡ s.audit_log
      → (h : Audited P a s (write_audit a act page version meta u)) × (h.new ≢ [])
  unfolding write_audit
  written-new P s u act page version meta same =
      let entry : Entry = record {
        actor = a;
        action = act;
        page_id = page;
        version_id = version;
        metadata = meta;
      } in
      (
        record {
          new = entry ∷ [];
          grown = ap (◌∷◌ entry) same;
          by_actor = (refl, tt);
          silent = λ _ e. absurd (filled entry e);
        },
        filled entry,
      )
    where
      filled : (e : Entry) → e ∷ [] ≢ []
      filled e h = cc

  pub written-Audited :
      (P : Type 0) (s u : Store) (act : Action) (page version : ℕ) (meta : Metadata)
      → u.audit_log ≡ s.audit_log
      → Audited P a s (write_audit a act page version meta u)
  written-Audited P s u act page version meta same =
      (written-new P s u act page version meta same).0

  pub update_page-Audited :
      (s : Store) (id : ℕ) (f : PageRow → PageRow) (act : Action) (meta : Metadata)
      → Audited Unit a s (write_audit a act id 0 meta (update_page id f s))
  unfolding update_page
  update_page-Audited s id f act meta =
      written-Audited Unit s (update_page id f s) act id 0 meta refl

  pub moved_store-Audited :
      (P : Type 0) (s t : Store) (page : PageRow) (id : ℕ) (act : Action) (why : Option Text)
      → t.audit_log ≡ s.audit_log
      → Audited P a s (moved_store t page id a act why)
  unfolding update_page
  moved_store-Audited P s t page id act why same = written-Audited P s _ act page.id id _ same

  pub Audited-weaken : {P Q : Type 0} {s t : Store} → (Q → P) → Audited P a s t → Audited Q a s t
  Audited-weaken f h = record {
    new = h.new;
    grown = h.grown;
    by_actor = h.by_actor;
    silent = λ q. h.silent (f q);
  }

  -- One after the other; the condition of the second may rest on the first having written nothing.
  pub Audited-then :
      {P Q R : Type 0} {s t u : Store} (h : Audited P a s t)
      → Audited Q a t u
      → (R → P)
      → (R → h.new ≡ [] → Q)
      → Audited R a s u
  Audited-then {s = s} h k first second = record {
    new = k.new ++ h.new;
    grown =
        k.grown
        ∙ (ap (λ (l : List Entry). k.new ++ l) h.grown
            ∙ sym (append_assoc k.new h.new s.audit_log));
    by_actor = append-By a k.new h.new k.by_actor h.by_actor;
    silent = λ r e.
        let (later, earlier) = append-empty k.new h.new e in
        let (pages, versions) = h.silent (first r) earlier in
        let (pages', versions') = k.silent (second r earlier) later in
        (pages' ∙ pages, versions' ∙ versions);
  }
