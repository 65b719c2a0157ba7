-- ===== src/Versions/Spec/Settings.antt =====
-- The page settings run permitted statements only.
use pages.Common.{
  Bool, Bool-cases, Option, Text, [], false, if◌then◌else◌, inl, inr, none, refl, some, text_eq,
  true, ℕ, ◌∷◌, ◌≡◌,
}
use pages.Versions.Args.{Value, str}
use pages.Versions.Guards.{assert_admin_action, is_user}
use pages.Versions.Prepare.{Platform, is_some}
use pages.Versions.Settings.{
  clean_title, is_clearing, new_password, password_columns, reveal_page_password, revealed,
  set_approval_flag, set_approval_gate, set_disabled, set_disabled_flag, set_page_password,
  set_page_theme, set_page_title, set_password_columns, set_theme_id, set_title_text,
  store_password, strict_bool, theme_name, theme_row,
}
use pages.Versions.Spec.Invert.{Ensures, after_bind, after_check, after_lock_page, returns}
use pages.Versions.Spec.Review.{Traced, assert_admin_action-is_user}
use pages.Versions.Spec.Rules.{KeepsFlags, KeepsPointer, Trace, describes, done, flags, logs, next}
use pages.Versions.Store.{
  Action, Actor, Metadata, PageRow, Store, approval_set, clear_password, disable, enable,
  no_metadata, set_approval, set_password, set_theme, set_title, theme_set, title_set, update_page,
  write_audit,
}

module _ {a : Actor} where
  -- A settings update and its audit entry.
  flag_and_log :
      (s : Store) (id : ℕ) (f : PageRow → PageRow) (act : Action) (meta : Metadata)
      → KeepsPointer f
      → is_user a ≡ true
      → Trace a s (write_audit a act id 0 meta (update_page id f s))
  flag_and_log s id f act meta keeps person =
      next (next done (flags id f keeps person)) (logs act id 0 meta)

  describe_and_log :
      (s : Store) (id : ℕ) (f : PageRow → PageRow) (act : Action) (meta : Metadata)
      → KeepsPointer f
      → KeepsFlags f
      → Trace a s (write_audit a act id 0 meta (update_page id f s))
  describe_and_log s id f act meta keeps same =
      next (next done (describes id f keeps same)) (logs act id 0 meta)

pub set_disabled-Traced :
    (env : Platform) (slug : Text) (v : Value) (a : Actor) (s : Store)
    → Ensures (Traced a s) (set_disabled env slug v a s)
unfolding set_disabled
set_disabled-Traced env slug v a s = after_check (assert_admin_action a) _ λ admin.
    after_bind (strict_bool v) _ λ b _. after_lock_page env.to_lower (str slug) s _ λ page _.
      returns (
        flag_and_log s page.id (set_disabled_flag b s.now) (if b then disable else enable)
          no_metadata
          (record {
            same_id = λ p. refl;
            same_slug = λ p. refl;
            same_pointer = λ p. refl;
            same_deletion = λ p. refl;
          })
          (assert_admin_action-is_user a admin))

pub set_approval_gate-Traced :
    (env : Platform) (slug : Text) (v : Value) (a : Actor) (s : Store)
    → Ensures (Traced a s) (set_approval_gate env slug v a s)
unfolding set_approval_gate
set_approval_gate-Traced env slug v a s = after_check (assert_admin_action a) _ λ admin.
    after_bind (strict_bool v) _ λ b _. after_lock_page env.to_lower (str slug) s _ λ page _.
      returns (
        flag_and_log s page.id (set_approval_flag b s.now) set_approval (approval_set b)
          (record {
            same_id = λ p. refl;
            same_slug = λ p. refl;
            same_pointer = λ p. refl;
            same_deletion = λ p. refl;
          })
          (assert_admin_action-is_user a admin))

pub set_page_theme-Traced :
    (env : Platform) (slug theme : Text) (a : Actor) (s : Store)
    → Ensures (Traced a s) (set_page_theme env slug theme a s)
unfolding set_page_theme
set_page_theme-Traced env slug theme a s = after_check (assert_admin_action a) _ λ admin.
    after_lock_page env.to_lower (str slug) s _ λ page _. after_bind (theme_row theme s) _ λ id _.
      returns (
        flag_and_log s page.id (set_theme_id id s.now) set_theme (theme_set (theme_name theme))
          (record {
            same_id = λ p. refl;
            same_slug = λ p. refl;
            same_pointer = λ p. refl;
            same_deletion = λ p. refl;
          })
          (assert_admin_action-is_user a admin))

store_password-Traced :
    (env : Platform) (slug : Text) (hash sealed : Option Text) (a : Actor) (s : Store)
    → Ensures (Traced a s) (store_password env slug hash sealed a s)
unfolding store_password
store_password-Traced env slug hash sealed a s =
    after_lock_page env.to_lower (str slug) s _ λ page _. returns (
      describe_and_log s page.id (set_password_columns hash sealed s.now)
        (if is_some hash then set_password else clear_password) no_metadata
        (record {
          same_id = λ p. refl;
          same_slug = λ p. refl;
          same_pointer = λ p. refl;
          same_deletion = λ p. refl;
        })
        (record { same_disabled = λ p. refl; same_gate = λ p. refl }))

new_password-Traced :
    (env : Platform) (slug : Text) (v : Value) (a : Actor) (s : Store)
    → Ensures (Traced a s) (new_password env slug v a s)
unfolding new_password
new_password-Traced env slug v a s =
    after_bind (password_columns env v) _
      λ columns _. store_password-Traced env slug (some columns.0) columns.1 a s

pub set_page_password-Traced :
    (env : Platform) (slug : Text) (v : Value) (a : Actor) (s : Store)
    → Ensures (Traced a s) (set_page_password env slug v a s)
unfolding set_page_password
set_page_password-Traced env slug v a s = elim (Bool-cases (is_clearing v)) [
  | inl clears ↦
      rw clears
        (after_check (assert_admin_action a) _ λ _. store_password-Traced env slug none none a s)
  | inr sets ↦ rw sets (new_password-Traced env slug v a s)
]

revealed-Trace :
    (env : Platform) (page : PageRow) (hash : Option Text) (a : Actor) (s : Store)
    → Trace a s (revealed env page hash a s).1
unfolding revealed
revealed-Trace env page none a s = done
revealed-Trace env page (some []) a s = done
revealed-Trace env page (some (c ∷ cs)) a s = next done (logs _ _ _ _)

pub reveal_page_password-Traced :
    (env : Platform) (slug : Text) (a : Actor) (s : Store)
    → Ensures (Traced a s) (reveal_page_password env slug a s)
unfolding reveal_page_password
reveal_page_password-Traced env slug a s = after_check (assert_admin_action a) _ λ _.
    after_lock_page env.to_lower (str slug) s _
      λ page _. returns (revealed-Trace env page page.password_hash a s)

title_choice-Traced :
    (same : Bool) (page : PageRow) (clean : Text) (a : Actor) (s : Store)
    → Traced {A = Text × Text} a s (
        if same then ((page.slug, clean), s) else (
          (page.slug, clean),
          write_audit a set_title page.id 0
              (title_set clean)
              (update_page page.id (set_title_text clean s.now) s),
        ))
title_choice-Traced true page clean a s = done
title_choice-Traced false page clean a s =
    describe_and_log s page.id (set_title_text clean s.now) set_title (title_set clean)
      (record {
        same_id = λ p. refl;
        same_slug = λ p. refl;
        same_pointer = λ p. refl;
        same_deletion = λ p. refl;
      })
      (record { same_disabled = λ p. refl; same_gate = λ p. refl })

pub set_page_title-Traced :
    (env : Platform) (slug : Text) (v : Value) (a : Actor) (s : Store)
    → Ensures (Traced a s) (set_page_title env slug v a s)
unfolding set_page_title
set_page_title-Traced env slug v a s = after_bind (clean_title v) _ λ clean _.
    after_lock_page env.to_lower (str slug) s _
      λ page _. returns (title_choice-Traced (text_eq page.title clean) page clean a s)
