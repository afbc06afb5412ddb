-- ===== src/Threads/Moves/Writes.antt =====
-- What a write of a thread does to the vault, whether it ends or raises.
use mathlib.Core.Path.{subst}
use the_watcher.Prelude.{
  ℕ, ◌≡◌, refl, sym, ◌∙◌, ◌⊎◌, inl, inr, Bool, true, false, Option, none, some, [], ◌∷◌,
  if◌then◌else◌,
}
use the_watcher.Prelude.{◌==◌, nat_is_eq, list_is_eq, list_eq_iff, Bool-cases}
use the_watcher.Prelude.Dict.{lookup-insert}
use the_watcher.Text.{Text}
use the_watcher.Wiki.Page.{Page}
use the_watcher.Vault.{whole, Vault, Wrote, current_revision, write_nonempty}
use the_watcher.Vault as V
use the_watcher.Vault.Laws.{at}
use the_watcher.Threads.Page.{Front, Content}
use the_watcher.Threads.Equal.{state_is_eq}
use the_watcher.Threads.Store.{StoredThread, Store, Done, bind}
use the_watcher.Threads.Store.Laws.{}
use the_watcher.Threads.Moves.{put_live, after_save, save, save_edit}

-- The store that a call leaves, if it ends or raises.
abbrev pub left_by : {A : Type 0} → Done A → Store
left_by (Done.done a s) = s
left_by (Done.failed e s) = s

-- A write leaves the vault, or puts the content at its path.
abbrev pub WroteAt : Text → Content → Vault Content → Vault Content → Type 0
WroteAt path content v after =
    (p : Text) → (at p after ≡ at p v) ⊎ ((path ≡ p) × (at p after ≡ some content))

module _ (fold : ℕ → Text) (is_word : ℕ → Bool) (hash : Content → Text) where
  write_at :
      (path : Text) (content : Content) (base : Text) (v : Vault Content)
      → WroteAt path content v (V.write hash whole path content base v).1
  unfolding V.write write_nonempty
  write_at path content [] v p = inl refl
  write_at path content (c ∷ base) v p =
      elim (Bool-cases ((c ∷ base) == current_revision hash whole (at path v))) [
        | inl e ↦ elim (Bool-cases (path == p)) [
          | inl f ↦
              inr
                ((list_eq_iff path p).0 f, rw e (lookup-insert path p content v.files ∙ rw f refl))
          | inr f ↦ inl (rw e (lookup-insert path p content v.files ∙ rw f refl))
        ]
        | inr e ↦ inl (rw e refl)
      ]

  put_live-vault :
      (o : Option StoredThread) (s : Store)
      → (left_by (put_live fold is_word hash o s)).vault ≡ s.vault
  unfolding put_live
  put_live-vault none s = refl
  put_live-vault (some t) s = refl

  after_save-vault :
      (path : Text) (content : Content) (r : Wrote) (v : Vault Content) (s : Store)
      → (left_by (after_save fold is_word hash path content (r, v) s)).vault ≡ v
  unfolding after_save
  after_save-vault path content (Wrote.wrote revision) v s = put_live-vault _ _
  after_save-vault path content Wrote.no_base v s = refl
  after_save-vault path content Wrote.conflict v s = refl

  pub save_at :
      (t : StoredThread) (page : Page Front) (s : Store)
      → WroteAt t.path (Content.page page) s.vault (left_by (save fold is_word hash t page s)).vault
  unfolding save
  save_at t page s =
      let (r, v) = V.write hash whole t.path (Content.page page) t.revision s.vault in
      subst (WroteAt t.path (Content.page page) s.vault)
        (sym (after_save-vault t.path (Content.page page) r v s))
        (write_at t.path (Content.page page) t.revision s.vault)

-- What holds of a store, also where the edit was refused, if it holds once the page is written.
module _ (fold : ℕ → Text) (is_word : ℕ → Bool) (hash : Content → Text) where
  pub save_edit_left :
      (P : Store → Type 0) (t : StoredThread) (page : Page Front) (accepted : Bool) (s : Store)
      → P s
      → P (left_by (save fold is_word hash t page s))
      → P (left_by (save_edit fold is_word hash t (if accepted then some page else none) s))
  unfolding save_edit
  save_edit_left P t page true s before saved = saved
  save_edit_left P t page false s before saved = before

-- What holds of the store that a call leaves, if the rest keeps it.
pub bind_left :
    {A B : Type 0} (P : Store → Type 0) (d : Done A) (f : A → Store → Done B)
    → ((a : A) (s : Store) → P s → P (left_by (f a s)))
    → P (left_by d)
    → P (left_by (bind d f))
unfolding bind
bind_left P (Done.done a s) f h q = h a s q
bind_left P (Done.failed e s) f h q = q
