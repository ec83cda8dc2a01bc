-- ===== src/Providers/Sound.antt =====
-- What the calls of internal/store/store.go on the keys of the providers keep of the state.
use pins.Prelude.{
  ◌≡◌, refl, sym, ap, subst, ◌∙◌, Bool, true, false, if◌then◌else◌, Bool-cases, inl, inr,
}
use mathlib.Core.Option.{Option, none, some}
use pins.Go.Text.{Str, text_eq, text_eq_iff, text_eq_refl}
use pins.Go.Map.{Map, lookup, lookup-insert, lookup-remove}
use pins.Policy.Store.{Saving, written, restored, kept}
use pins.Providers.{KeySet}
use pins.Providers.Consistent.{Consistent}
use pins.Providers.Store.{
  KeyState, KeyStore, save_keys, active_secret, mirror, secret_of, secret_at, sync_active, put_set,
  finish, finish_sync,
}

-- Each set of keys is consistent, and the plain map has the secret of the active key, where there is one.
pub record Sound (st : KeyState) : Type 0 where
  pub sets : (p : Str) (ks : KeySet) → lookup st.key_sets p ≡ some ks → Consistent ks
  pub mirrored : (p : Str) → lookup st.provider_keys p ≡ secret_at st p

pub record SoundStore (s : KeyStore) : Type 0 where
  pub memory : Sound s.memory
  pub disk : Sound s.disk

save_keys-SoundStore :
    (how : Saving) (s : KeyStore) (st : KeyState)
    → SoundStore s
    → Sound st
    → SoundStore (save_keys how s st).0
unfolding save_keys
save_keys-SoundStore written s st h new = record { memory = new; disk = new }
save_keys-SoundStore restored s st h new = record { memory = h.disk; disk = h.disk }
save_keys-SoundStore kept s st h new = record { memory = new; disk = h.disk }

secret_of-if :
    (b : Bool) (ks : KeySet) (o : Option KeySet)
    → secret_of (if b then some ks else o) ≡ (if b then active_secret ks else secret_of o)
unfolding secret_of
secret_of-if true ks o = refl
secret_of-if false ks o = refl

-- The other providers keep their secrets; this one gets that of its new set.
secret_at-put_set :
    (p j : Str) (ks : KeySet) (st : KeyState)
    → secret_at (put_set p ks st) j ≡ (if text_eq p j then active_secret ks else secret_at st j)
unfolding secret_at put_set
secret_at-put_set p j ks st =
    ap secret_of (lookup-insert st.key_sets p j ks)
    ∙ secret_of-if (text_eq p j) ks (lookup st.key_sets j)

put_set-sets :
    (p : Str) (ks : KeySet) (st : KeyState)
    → Sound st
    → Consistent ks
    → (j : Str) (js : KeySet) → lookup (put_set p ks st).key_sets j ≡ some js
    → Consistent js
unfolding put_set
put_set-sets p ks st h c j js e = elim (Bool-cases (text_eq p j)) [
  | inl here ↦
      let same : ks ≡ js = cc (rw (lookup-insert st.key_sets p j ks, here) at e) in
      subst Consistent same c
  | inr other ↦ h.sets j js (rw (lookup-insert st.key_sets p j ks, other) at e)
]

lookup-mirror :
    (m : Map Str) (p j : Str) (secret : Option Str)
    → lookup (mirror m p secret) j ≡ (if text_eq p j then secret else lookup m j)
unfolding mirror
lookup-mirror m p j none = lookup-remove m p j
lookup-mirror m p j (some secret) = lookup-insert m p j secret

sync_active-Sound :
    (p : Str) (ks : KeySet) (st : KeyState)
    → Sound st
    → Consistent ks
    → Sound (sync_active p (put_set p ks st))
unfolding sync_active put_set mirror secret_at
sync_active-Sound p ks st h c = record {
  sets = put_set-sets p ks st h c;
  mirrored = λ j.
      lookup-mirror (put_set p ks st).provider_keys p j (secret_at (put_set p ks st) p)
      ∙ (agreed p j ks st (h.mirrored j) (text_eq p j) refl ∙ sym (secret_at-put_set p j ks st));
}
  where
    agreed :
        (p j : Str) (ks : KeySet) (st : KeyState)
        → lookup st.provider_keys j ≡ secret_at st j
        → (b : Bool) → text_eq p j ≡ b
        → (if b then secret_at (put_set p ks st) p else lookup st.provider_keys j)
          ≡ (if b then active_secret ks else secret_at st j)
    agreed p j ks st m true e = secret_at-put_set p p ks st ∙ rw (text_eq_refl p) refl
    agreed p j ks st m false e = m

put_set-Sound :
    (p : Str) (ks : KeySet) (st : KeyState)
    → Sound st
    → Consistent ks
    → active_secret ks ≡ secret_at st p
    → Sound (put_set p ks st)
unfolding put_set
put_set-Sound p ks st h c same = record {
  sets = put_set-sets p ks st h c;
  mirrored =
      λ j. h.mirrored j ∙ (unchanged j (text_eq p j) refl ∙ sym (secret_at-put_set p j ks st));
}
  where
    unchanged :
        (j : Str) (b : Bool)
        → text_eq p j ≡ b
        → secret_at st j ≡ (if b then active_secret ks else secret_at st j)
    unchanged j true e = ap (secret_at st) (sym ((text_eq_iff p j).0 e)) ∙ sym same
    unchanged j false e = refl

-- The ends of the calls.
pub finish_sync-SoundStore :
    (how : Saving) (s : KeyStore) (p : Str) (o : Option KeySet)
    → SoundStore s
    → ((ks : KeySet) → o ≡ some ks → Consistent ks)
    → SoundStore (finish_sync how s p o).0
unfolding finish_sync
finish_sync-SoundStore how s p none h c = h
finish_sync-SoundStore how s p (some ks) h c =
    save_keys-SoundStore how s (sync_active p (put_set p ks s.memory)) h
      (sync_active-Sound p ks s.memory h.memory (c ks refl))

pub finish-SoundStore :
    (how : Saving) (s : KeyStore) (p : Str) (o : Option KeySet)
    → SoundStore s
    → ((ks : KeySet) → o ≡ some ks → Consistent ks × (active_secret ks ≡ secret_at s.memory p))
    → SoundStore (finish how s p o).0
unfolding finish
finish-SoundStore how s p none h c = h
finish-SoundStore how s p (some ks) h c =
    let (consistent, same) = c ks refl in
    save_keys-SoundStore how s (put_set p ks s.memory) h
      (put_set-Sound p ks s.memory h.memory consistent same)
