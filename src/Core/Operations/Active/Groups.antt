-- ===== src/Core/Operations/Active/Groups.antt =====
-- The cuts of the fenced groups as a map of the configured data groups.
use light_stream.Shared.BTreeSet
use light_stream.Shared.{
  suc, ◌≡◌, refl, ap, true, List, [], ◌∷◌, arith, nat_eq, length, btree_insert, btree_keys,
  btree_values,
}
use light_stream.Core.Identity.{GroupId}
use light_stream.Core.Error.{ok}
use light_stream.Core.Operations.{GroupCut, collect_cuts, quiescent_cut}

abbrev pub Cuts : Type 0
Cuts = List (GroupId × GroupCut)

-- Each cut stands under its own group, which is configured.
abbrev pub AreConfigured : List GroupId → Cuts → Type 0
AreConfigured configured [] = Unit {0}
AreConfigured configured ((g, c) ∷ m) =
    (BTreeSet.contains configured g ≡ true) × (c.group ≡ g) × AreConfigured configured m

abbrev pub AllIn : List GroupId → List GroupId → Type 0
AllIn configured [] = Unit {0}
AllIn configured (g ∷ gs) = (BTreeSet.contains configured g ≡ true) × AllIn configured gs

pub insert-AreConfigured :
    (configured : List GroupId) (c : GroupCut) (m : Cuts)
    → BTreeSet.contains configured c.group ≡ true
    → AreConfigured configured m
    → AreConfigured configured (btree_insert c.group c m)
insert-AreConfigured configured c [] h k = ground arith
insert-AreConfigured configured c ((g, d) ∷ m) h k =
    ground (arith, insert-AreConfigured configured c m h)

pub insert-AllIn :
    (configured : List GroupId) (g : GroupId) (gs : List GroupId)
    → BTreeSet.contains configured g ≡ true
    → AllIn configured gs
    → AllIn configured (BTreeSet.insert g gs)
insert-AllIn configured g [] h k = ground arith
insert-AllIn configured g (x ∷ gs) h k = ground (arith, insert-AllIn configured g gs h)

insert_below :
    (g : GroupId) (c : GroupCut) (m : Cuts)
    → BTreeSet.IsAbove g (btree_keys m)
    → btree_insert g c m ≡ (g, c) ∷ m
insert_below g c [] s = refl
insert_below g c ((h, d) ∷ m) s = ground arith

above-IsSorted : (g : GroupId) (gs : List GroupId) → BTreeSet.IsAbove g gs → BTreeSet.IsSorted gs
above-IsSorted g [] s = tt
above-IsSorted g (x ∷ gs) s = s.1

length-values : (m : Cuts) → length (btree_values m) ≡ length m
length-values [] = refl
length-values ((g, c) ∷ m) = ap suc (length-values m)

collect-values :
    (configured : List GroupId) (m : Cuts)
    → AreConfigured configured m
    → BTreeSet.IsSorted (btree_keys m)
    → collect_cuts (btree_values m) ≡ m
unfolding collect_cuts
collect-values configured [] k s = refl
collect-values configured ((g, c) ∷ m) k s =
    cc (
      collect-values configured m k.2 (above-IsSorted g (btree_keys m) s),
      k.1,
      insert_below g c m s,
    )

-- The cut that freezes an export is the map of the fenced groups itself.
pub quiescent_cut-values :
    (configured : List GroupId) (control : GroupCut) (m : Cuts)
    → AreConfigured configured m
    → BTreeSet.IsSorted (btree_keys m)
    → quiescent_cut control (btree_values m) ≡ ok (record { control = control; data_cuts = m })
unfolding quiescent_cut
quiescent_cut-values configured control m k s =
    ground (arith, collect-values configured m k s, length-values m)
