-- ===== src/Patches/Ios.antt =====
-- The iOS state of the phones under MDM: frontend/src/pages/patches/patchList.ts, lines 354 to 384.
use rmm_rxf_sys_de.Base.{
  ℕ, ◌+◌, ◌≡◌, refl, ◌∙◌, Bool, true, false, not, ◌||◌, none, some, List, [], ◌∷◌, ◌++◌, arith,
  length, count, filter,
}
use rmm_rxf_sys_de.Base.Sort.{sort}
use rmm_rxf_sys_de.Base.Sort.Parts.{by_test, sort-parts}
use rmm_rxf_sys_de.Fleet.Types.{Device, IosStatus, major_behind, outdated}

pub record IosStat : Type 0 where
  pub total : ℕ
  pub current : ℕ
  pub major_behind : ℕ
  pub outdated : ℕ
  pub unknown : ℕ
  pub behind : List Device

-- `d.mdm?.os_status ?? 'unknown'`
abbrev pub os_status : Device → IosStatus
os_status d = elim (d.mdm) [ none ↦ IosStatus.unknown | some m ↦ m.os_status ]

abbrev pub is_outdated : Device → Bool
is_outdated d = elim (os_status d) [ outdated ↦ true | _ ↦ false ]

abbrev pub is_major_behind : Device → Bool
is_major_behind d = elim (os_status d) [ major_behind ↦ true | _ ↦ false ]

-- One round of the loop.
abbrev count_status : IosStatus → IosStat → IosStat
count_status IosStatus.current s = record s { current = s.current + 1 }
count_status IosStatus.major_behind s = record s { major_behind = s.major_behind + 1 }
count_status IosStatus.outdated s = record s { outdated = s.outdated + 1 }
count_status IosStatus.unknown s = record s { unknown = s.unknown + 1 }

unfoldable pub count_phones : IosStat → List Device → IosStat
count_phones s [] = s
count_phones s (d ∷ phones) = count_phones (count_status (os_status d) s) phones

abbrev pub is_behind : Device → Bool
is_behind d = is_outdated d || is_major_behind d

unfoldable pub ios_stats : List Device → IosStat
ios_stats phones =
    let none_yet : IosStat = record {
      total = length phones;
      current = 0;
      major_behind = 0;
      outdated = 0;
      unknown = 0;
      behind = [];
    } in
    record (count_phones none_yet phones) {
      behind = sort (by_test is_outdated) (filter is_behind phones);
    }

behind-count_phones :
    (s : IosStat) (phones : List Device)
    → (count_phones s phones).outdated + (count_phones s phones).major_behind
      ≡ s.outdated + s.major_behind + count is_behind phones
unfolding count_phones
behind-count_phones s [] = omega arith
behind-count_phones s (d ∷ phones) =
    ground (arith, behind-count_phones (count_status (os_status d) s) phones)

all-count_phones :
    (s : IosStat) (phones : List Device)
    → (count_phones s phones).current
        + (count_phones s phones).major_behind
        + (count_phones s phones).outdated
        + (count_phones s phones).unknown
      ≡ s.current + s.major_behind + s.outdated + s.unknown + length phones
unfolding count_phones
all-count_phones s [] = omega arith
all-count_phones s (d ∷ phones) =
    ground (arith, all-count_phones (count_status (os_status d) s) phones)

filter_outdated :
    (phones : List Device)
    → filter is_outdated (filter is_behind phones) ≡ filter is_outdated phones
filter_outdated [] = refl
filter_outdated (d ∷ phones) = ground (arith, filter_outdated phones)

filter_major :
    (phones : List Device)
    → filter (λ d. not (is_outdated d)) (filter is_behind phones) ≡ filter is_major_behind phones
filter_major [] = refl
filter_major (d ∷ phones) = ground (arith, filter_major phones)

-- The phones behind are the outdated ones and after them those behind by a major version, each in
-- the order given; every phone is in exactly one of the four figures, and as many phones are listed
-- as behind as the two figures for it say.
pub ios_stats_lem :
    (phones : List Device)
    → ((ios_stats phones).behind ≡ filter is_outdated phones ++ filter is_major_behind phones)
      × ((ios_stats phones).current
            + (ios_stats phones).major_behind
            + (ios_stats phones).outdated
            + (ios_stats phones).unknown
          ≡ length phones)
      × ((ios_stats phones).outdated + (ios_stats phones).major_behind ≡ count is_behind phones)
unfolding ios_stats
ios_stats_lem phones =
    let none_yet : IosStat = record {
      total = length phones;
      current = 0;
      major_behind = 0;
      outdated = 0;
      unknown = 0;
      behind = [];
    } in
    (
      sort-parts is_outdated (filter is_behind phones)
          ∙ rw (filter_outdated phones, filter_major phones),
      omega (arith, all-count_phones none_yet phones),
      omega (arith, behind-count_phones none_yet phones),
    )
