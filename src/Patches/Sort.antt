-- ===== src/Patches/Sort.antt =====
-- frontend/src/pages/patches/patchList.ts, lines 120 to 235: the columns, their address form and
-- the order of the rows.
pub mod Address
pub mod Laws
use Prim.Native.Char.{code}
use Prim.Native.String
use Prim.Native.Nat.Ordering.{lt, gt}
use mathlib.Core.Option
use rmm_rxf_sys_de.Base.{
  ℕ, ◌+◌, ◌*◌, Bool, true, false, String, Option, none, some, List, map, Ordering, compare, ◌==◌,
  if◌then◌else◌, str_eq,
}
use rmm_rxf_sys_de.Base.Compare.{flip, then_by}
use rmm_rxf_sys_de.Base.Sort.{sort}
use rmm_rxf_sys_de.Base.Text.{decimal, Collator}
use rmm_rxf_sys_de.Fleet.Types.{Device, PatchSummary}
use rmm_rxf_sys_de.Patches.Filter.{pending_of, security_of}

pub data SortKey : Type 0 where
  name person pending security scan conn : SortKey

pub data SortDir : Type 0 where
  asc desc : SortDir

pub record Sort : Type 0 where
  pub key : SortKey
  pub dir : SortDir

-- How the address spells a key; `SORT_KEYS` lists these texts.
abbrev pub key_text : SortKey → String
key_text name = "name"
key_text person = "person"
key_text pending = "pending"
key_text security = "security"
key_text scan = "scan"
key_text conn = "conn"

-- `SORT_KEYS.includes(key)`, with the key that it is.
unfoldable pub key_of : String → Option SortKey
key_of t =
    if str_eq t "name"
    then some name
    else (if str_eq t "person"
        then some person
        else (if str_eq t "pending"
            then some pending
            else (if str_eq t "security"
                then some security
                else (if str_eq t "scan"
                    then some scan
                    else (if str_eq t "conn" then some conn else none)))))

abbrev pub first_dir : SortKey → SortDir
first_dir name = asc
first_dir person = asc
first_dir pending = desc
first_dir security = desc
first_dir scan = asc
first_dir conn = asc

abbrev pub default_sort : Sort
default_sort = record { key = security; dir = desc }

-- `raw.startsWith('-')` and `raw.slice(1)`
abbrev pub split_minus : String → Bool × String
split_minus String.[] = (false, "")
split_minus (String.◌∷◌ c s) = if code c == b'-' then (true, s) else (false, String.◌∷◌ c s)

-- Null and the empty text are both the default.
unfoldable pub parse_sort : Option String → Sort
unfolding key_of
parse_sort none = default_sort
parse_sort (some raw) =
    let (is_desc, rest) = split_minus raw in
    elim (key_of rest) [
      | some k ↦ record { key = k; dir = if is_desc then desc else asc }
      | none ↦ default_sort
    ]

abbrev pub is_desc : SortDir → Bool
is_desc desc = true
is_desc asc = false

abbrev same_key : SortKey → SortKey → Bool
same_key name name = true
same_key person person = true
same_key pending pending = true
same_key security security = true
same_key scan scan = true
same_key conn conn = true
same_key _ _ = false

abbrev same_dir : SortDir → SortDir → Bool
same_dir asc asc = true
same_dir desc desc = true
same_dir _ _ = false

unfoldable pub format_sort : Sort → Option String
format_sort s =
    if same_key s.key default_sort.key
    then (if same_dir s.dir default_sort.dir
        then none
        else some (String.◌++◌ (if is_desc s.dir then "-" else "") (key_text s.key)))
    else some (String.◌++◌ (if is_desc s.dir then "-" else "") (key_text s.key))

abbrev pub turned : SortDir → SortDir
turned asc = desc
turned desc = asc

unfoldable pub next_sort : Sort → SortKey → Sort
next_sort current key =
    if same_key current.key key
    then record { key = key; dir = turned current.dir }
    else record { key = key; dir = first_dir key }

pub record ListContext : Type 0 where
  pub patch_summary : PatchSummary
  pub person_name : Option ℕ → String

-- What a column sorts by, where it has a value: `number | string` in the source.
pub data Value : Type 0 where
  num : ℕ → Value
  text : String → Value

-- `a || b || ''` on texts: the empty text is false.
abbrev first_text : String → String → String
first_text a b = if str_eq a "" then b else a

unfoldable pub owner_of : Device → (Option ℕ → String) → String
owner_of d person_name = first_text (person_name d.person_id) d.owner_label

abbrev pub text_or_none : String → Option String
text_or_none t = if str_eq t "" then none else some t

abbrev security_rank : Device → PatchSummary → Option ℕ
security_rank d ps = Option.map (λ p. security_of d ps * 100000 + p) (pending_of d ps)

unfoldable pub value : Device → SortKey → ListContext → Option Value
value d name ctx = Option.map text (some d.hostname)
value d person ctx = Option.map text (text_or_none (owner_of d ctx.person_name))
value d pending ctx = Option.map num (pending_of d ctx.patch_summary)
value d security ctx = Option.map num (security_rank d ctx.patch_summary)
value d scan ctx = Option.map num (some d.last_patch_scan_at)
value d conn ctx = Option.map num (some (if d.connected then 1 else 0))

abbrev pub signed : SortDir → Ordering → Ordering
signed asc c = c
signed desc c = flip c

module _ (collator : Collator) where
  abbrev pub compare_value : Value → Value → Ordering
  compare_value (num m) (num n) = compare m n
  compare_value (num m) (text t) = collator.compare (decimal m) t
  compare_value (text s) (num n) = collator.compare s (decimal n)
  compare_value (text s) (text t) = collator.compare s t

  -- The comparator of `sortDevices`, on the pairs of a device and its value.
  abbrev pub compare_keyed : SortDir → Device × Option Value → Device × Option Value → Ordering
  compare_keyed dir (a, none) (b, none) = collator.compare a.hostname b.hostname
  compare_keyed dir (a, none) (b, some w) = gt
  compare_keyed dir (a, some v) (b, none) = lt
  compare_keyed dir (a, some v) (b, some w) =
      then_by (signed dir (compare_value v w)) (collator.compare a.hostname b.hostname)

  unfoldable pub sort_devices : List Device → Sort → ListContext → List Device
  sort_devices devices s ctx =
      map (λ k. k.0) (sort (compare_keyed s.dir) (map (λ d. (d, value d s.key ctx)) devices))
