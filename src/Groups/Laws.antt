-- ===== src/Groups/Laws.antt =====
-- The supplementary groups that `sys_setgroups` stores are those that are read back.
use linux.Base.{
  ℕ, ◌+◌, ◌≤◌, ◌<◌, ◌≡◌, refl, ap, ◌∙◌, Bool, true, false, ◌||◌, some, List, [], ◌∷◌, arith, length,
  ◌==◌,
}
use linux.Base.Int.{ℤ, to_u16}
use linux.Groups.{
  sys_getgroups, sys_setgroups, in_group_p, done, getgroups_from, store_groups, search_group,
  ngroups,
}

-- Every group id fits an `unsigned short`.
abbrev pub AreWords : List ℕ → Type 0
AreWords [] = Unit
AreWords (w ∷ ws) = (w < 65536) × AreWords ws

unfoldable pub contains : List ℕ → ℕ → Bool
contains [] g = false
contains (w ∷ ws) g = (w == g) || contains ws g

getgroups_from-store :
    (size i : ℕ) (ws : List ℕ) (gs : List ℤ)
    → AreWords ws
    → length ws ≤ length gs
    → i + length ws ≤ size
    → 0 < size
    → getgroups_from size i (store_groups ws gs) ≡ some (i + length ws, ws)
unfolding getgroups_from store_groups to_u16
getgroups_from-store size i [] [] v l s p = ground arith
getgroups_from-store size i [] (g ∷ gs) v l s p = ground arith
getgroups_from-store size i (w ∷ ws) [] v l s p = absurd (omega arith)
getgroups_from-store size i (w ∷ ws) (g ∷ gs) v l s p =
    rw (getgroups_from-store size (i + 1) ws gs v.1 (omega arith) (omega arith) p) (ground arith)

-- What root stores with `sys_setgroups`, `sys_getgroups` reads back, with its number, into an array
-- that is not empty and large enough.
pub getgroups-setgroups :
    (ws : List ℕ) (groups : List ℤ) (size : ℕ)
    → length groups ≡ ngroups
    → AreWords ws
    → length ws ≤ ngroups
    → length ws ≤ size
    → 0 < size
    → (stored : List ℤ) × (sys_setgroups true ws groups ≡ done stored)
      × (sys_getgroups size stored ≡ some (length ws, ws))
unfolding sys_setgroups sys_getgroups
getgroups-setgroups ws groups size e v l s p = (
  store_groups ws groups,
  ground arith,
  getgroups_from-store size 0 ws groups v (omega arith) (omega arith) p
      ∙ ap (λ n. some (n, ws)) (omega arith),
)

search-store :
    (g : ℕ) (ws : List ℕ) (gs : List ℤ)
    → length ws ≤ length gs
    → search_group g (store_groups ws gs) ≡ contains ws g
unfolding search_group store_groups contains
search-store g [] [] l = refl
search-store g [] (x ∷ gs) l = refl
search-store g (w ∷ ws) [] l = absurd (omega arith)
search-store g (w ∷ ws) (x ∷ gs) l = ground (arith, search-store g ws gs)

-- After `sys_setgroups` a process is in its effective group and in exactly the groups of the list.
pub in_group_p-setgroups :
    (ws : List ℕ) (groups : List ℤ) (egid g : ℕ)
    → length groups ≡ ngroups
    → length ws ≤ ngroups
    → (stored : List ℤ) × (sys_setgroups true ws groups ≡ done stored)
      × (in_group_p egid g stored ≡ ((g == egid) || contains ws g))
unfolding sys_setgroups in_group_p
in_group_p-setgroups ws groups egid g e l =
    (store_groups ws groups, ground arith, ground (arith, search-store g ws groups (omega arith)))
