-- ===== src/Payments/Json.antt =====
-- The JSON values that the gateway's replies hold, and Python's dict access to them.
use dutchkem_trading_ai.Common.{ℕ, String, Bool, false, Option, none, some, str_eq, if◌then◌else◌}

-- `list` stands for any array: the code never looks into one.
mutual
  pub data Json : Type 0 where
    null : Json
    bool : Bool → Json
    num : ℕ → Json
    text : String → Json
    list : Json
    obj : Fields → Json

  pub data Fields : Type 0 where
    nil : Fields
    field : String → Json → Fields → Fields

-- `d.get(key, default)`
unfoldable pub get : String → Json → Fields → Json
get key default nil = default
get key default (field k v rest) = if str_eq k key then v else get key default rest

-- `value == "..."`
unfoldable pub is_text : String → Json → Bool
is_text s (text t) = str_eq t s
is_text s _ = false

-- `value is True`
unfoldable pub is_true : Json → Bool
is_true (bool b) = b
is_true _ = false

-- the dict that a value is, if it is one; on any other value `.get` raises AttributeError
unfoldable pub as_dict : Json → Option Fields
as_dict (obj fs) = some fs
as_dict _ = none
