-- ===== src/Session/Trash/Purged.antt =====
-- The purge spares what is within its grace.
use dtd_server_apm.Common.{
  All-keep, ℕ, ◌≡◌, ◌≢◌, refl, ap, sym, ◌∙◌, Bool, true, [], ◌∷◌, some, Text, All, All-imp, arith,
  nat_eq, list_eq, text_eq, keep, inl, inr, Bool-cases,
}
use dtd_server_apm.Common.Dict.{lookup}
use dtd_server_apm.Common.Sort.{All-sorted}
use dtd_server_apm.Session.Trash.{
  Entries, Store, without, Removal, removed, vanished, refused, Host, after_removal, is_skipped,
  expire, expired, purge_expired_trash,
}

lookup-without_other :
    (x name : Text) (entries : Entries)
    → name ≢ x
    → lookup x (without name entries) ≡ lookup x entries
unfolding lookup without keep
lookup-without_other x name [] h = refl
lookup-without_other x name ((y, v) ∷ entries) h =
    ground
      (arith, lookup-without_other x name entries h, text_eq.beq_iff y x, text_eq.beq_iff y name)

lookup-after_removal :
    (r : Removal) (x name : Text) (entries : Entries)
    → name ≢ x
    → lookup x (after_removal r name entries) ≡ lookup x entries
lookup-after_removal removed x name entries h = lookup-without_other x name entries h
lookup-after_removal vanished x name entries h = lookup-without_other x name entries h
lookup-after_removal refused x name entries h = refl

skipped_if_fresh :
    (r : Removal) (is_fresh : Bool) → r ≢ vanished → is_fresh ≡ true → is_skipped r is_fresh ≡ true
skipped_if_fresh removed is_fresh h e = e
skipped_if_fresh refused is_fresh h e = e
skipped_if_fresh vanished is_fresh h e = absurd (h refl)

expire-keeps :
    (host : Host) (x : Text) (v : ℕ) (entries all : Entries)
    → host.is_fresh v ≡ true
    → host.removal x ≢ vanished
    → All (λ e. e.0 ≡ x → e.1 ≡ v) entries
    → lookup x all ≡ some v
    → lookup x (expire host entries all).1 ≡ some v
unfolding expire
expire-keeps host x v [] all fresh there h p = p
expire-keeps host x v ((name, mtime) ∷ entries) all fresh there h p =
    elim (Bool-cases (is_skipped (host.removal name) (host.is_fresh mtime))) [
      | inl e ↦ rw e (expire-keeps host x v entries all fresh there h.1 p)
      | inr e ↦
          let apart : name ≢ x = λ same. cc (
            skipped_if_fresh (host.removal name) (host.is_fresh mtime)
                (λ w. there (ap host.removal (sym same) ∙ w)) (ap host.is_fresh (h.0 same) ∙ fresh),
            e,
          ) in
          rw e (
            expire-keeps host x v entries (after_removal (host.removal name) name all) fresh there
              h.1 (lookup-after_removal (host.removal name) x name all apart ∙ p))
    ]

-- Each entry is the one that its name finds.
abbrev pub IsDict : Entries → Type 0
IsDict entries = All (λ e. lookup e.0 entries ≡ some e.1) entries

-- A purge leaves every entry of the trash whose time is past the cutoff, unless another prune removes
-- it meanwhile.
pub purge_expired_trash-keeps :
    (host : Host) (st : Store) (x : Text) (v : ℕ)
    → IsDict st.trash
    → lookup x st.trash ≡ some v
    → host.is_fresh v ≡ true
    → host.removal x ≢ vanished
    → lookup x (purge_expired_trash host st).1.trash ≡ some v
unfolding purge_expired_trash expired
purge_expired_trash-keeps host st x v dict p fresh there =
    expire-keeps host x v _ st.trash fresh there
      (All-sorted (λ e. e.0 ≡ x → e.1 ≡ v) _ _
        (All-keep (λ e. e.0 ≡ x → e.1 ≡ v) _ st.trash
          (All-imp (λ e h same. cc (h, p, same)) st.trash dict)))
      p
