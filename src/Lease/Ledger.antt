-- ===== src/Lease/Ledger.antt =====
-- What every call keeps of the leases on disk.
use pins.Prelude.{
  ℕ, suc, ◌≡◌, refl, sym, ap, subst, ◌∙◌, inl, inr, ◌&&◌, ◌||◌, [], ◌∷◌, none, some, Bool-cases,
}
use pins.Go.Text.{Str, text_eq, text_eq_sound, is_empty}
use pins.Go.Map.{Map, lookup, insert, lookup-insert}
use pins.Lease.Types.{Disk, Actor, Lease}
use pins.Lease.Transaction.{Moment, expire}
use pins.Lease.Service.{list_loop, may_see}
use pins.Lease.Evolution.{Evolves, Evolves-refl, Evolves-trans, expire-Evolves}

-- Each lease of `ls` is in `ls'` under the same identifier, and evolves.
abbrev pub LeasesEvolve : Map Lease → Map Lease → Type 0
LeasesEvolve ls ls' =
    (id : Str) (l : Lease)
    → lookup ls id ≡ some l
    → (l' : Lease) × (lookup ls' id ≡ some l') × Evolves l l'

pub LeasesEvolve-refl : (ls : Map Lease) → LeasesEvolve ls ls
LeasesEvolve-refl ls id l e = (l, e, Evolves-refl l)

pub record Continues (d d' : Disk) : Type 0 where
  pub evolve : LeasesEvolve d.leases d'.leases

pub Continues-refl : (d : Disk) → Continues d d
Continues-refl d = record { evolve = LeasesEvolve-refl d.leases }

pub LeasesEvolve-trans :
    (ls ls' ls'' : Map Lease) → LeasesEvolve ls ls' → LeasesEvolve ls' ls'' → LeasesEvolve ls ls''
LeasesEvolve-trans ls ls' ls'' f g id l e =
    let (l', e', s) = f id l e in
    let (l'', e'', t) = g id l' e' in (l'', e'', Evolves-trans l l' l'' s t)

-- To replace a lease by what it evolves to.
pub insert-evolved :
    (ls : Map Lease) (k : Str) (l l' : Lease)
    → lookup ls k ≡ some l
    → Evolves l l'
    → LeasesEvolve ls (insert ls k l')
insert-evolved ls k l l' found s id x e = elim (Bool-cases (text_eq k id)) [
  | inl same ↦
      let one : l ≡ x = cc (ap (lookup ls) (text_eq_sound k id same)) in
      (l', lookup-insert ls k id l' ∙ (rw same refl), subst (λ y. Evolves y l') one s)
  | inr different ↦ (x, lookup-insert ls k id l' ∙ (rw different e), Evolves-refl x)
]

-- To add a lease under an identifier that is not in use.
pub insert-fresh :
    (ls : Map Lease) (k : Str) (l : Lease) → lookup ls k ≡ none → LeasesEvolve ls (insert ls k l)
insert-fresh ls k l fresh id x e = elim (Bool-cases (text_eq k id)) [
  | inl same ↦ cc (sym fresh ∙ ap (lookup ls) (text_eq_sound k id same) ∙ e)
  | inr different ↦ (x, lookup-insert ls k id l ∙ (rw different e), Evolves-refl x)
]

-- One round of the loop of `List`: an entry is left as it is, or expired.
list_loop-cons :
    (m : Moment) (a : Actor) (objective : Str) (i : ℕ) (k : Str) (x : Lease) (ls : Map Lease)
    → (j : ℕ) × (x' : Lease) × Evolves x x'
      × ((list_loop m a objective i ((k, x) ∷ ls)).0 ≡ (k, x') ∷ (list_loop m a objective j ls).0)
unfolding list_loop
list_loop-cons m a objective i k x ls =
    elim (Bool-cases (may_see a x && (is_empty objective || text_eq objective x.objective_id))) [
      | inl shown ↦
          (suc i, expire x (m.now i), expire-Evolves x (m.now i), rw (shown, list_loop) refl)
      | inr hidden ↦ (i, x, Evolves-refl x, rw (hidden, list_loop) refl)
    ]

LeasesEvolve-cons :
    (k : Str) (x x' : Lease) (ls ls' : Map Lease)
    → Evolves x x'
    → LeasesEvolve ls ls'
    → LeasesEvolve ((k, x) ∷ ls) ((k, x') ∷ ls')
unfolding lookup
LeasesEvolve-cons k x x' ls ls' s f id l e = elim (Bool-cases (text_eq k id)) [
  | inl same ↦ let one : x ≡ l = cc (rw same at e) in (x', rw same, subst (λ y. Evolves y x') one s)
  | inr different ↦ let (l', e', t) = f id l (rw different at e) in (l', rw different e', t)
]

-- `List` expires what it shows.
pub list_loop-evolved :
    (m : Moment) (a : Actor) (objective : Str) (i : ℕ) (ls : Map Lease)
    → LeasesEvolve ls (list_loop m a objective i ls).0
list_loop-evolved m a objective i [] = unfold list_loop in LeasesEvolve-refl []
list_loop-evolved m a objective i ((k, x) ∷ ls) =
    let (j, x', s, e) = list_loop-cons m a objective i k x ls in
    subst (LeasesEvolve ((k, x) ∷ ls)) (sym e) (
      LeasesEvolve-cons k x x' ls (list_loop m a objective j ls).0 s
        (list_loop-evolved m a objective j ls))
