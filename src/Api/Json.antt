-- ===== src/Api/Json.antt =====
-- What `JSON.parse` returns. A number is of a type of its own, since the code only prints it.
use rmm_rxf_sys_de.Base.{Bool, String, Option, none, some, str_eq, if◌then◌else◌}

mutual
  pub data Json (N : Type 0) : Type 0 where
    null : Json N
    bool : Bool → Json N
    num : N → Json N
    str : String → Json N
    arr : Items N → Json N
    obj : Fields N → Json N

  pub data Items (N : Type 0) : Type 0 where
    no_items : Items N
    item : Json N → Items N → Items N

  -- Each key once.
  pub data Fields (N : Type 0) : Type 0 where
    no_fields : Fields N
    entry : String → Json N → Fields N → Fields N

module _ {N : Type 0} where
  unfoldable pub find_key : String → Fields N → Option (Json N)
  find_key k no_fields = none
  find_key k (entry j v fs) = let rest = find_key k fs in if str_eq j k then some v else rest

  -- `(v !== null && typeof v === 'object' ? v : {})[k]`
  unfoldable pub field : String → Json N → Option (Json N)
  unfolding find_key
  field k (obj fs) = find_key k fs
  field k null = none
  field k (bool b) = none
  field k (num n) = none
  field k (str s) = none
  field k (arr vs) = none
