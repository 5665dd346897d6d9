-- ===== src/Balancer/Picker.antt =====
-- wrr.go. A connection is named by its place in the list; Go's int is an int64.
use douyin_mall.Base.{
  ℕ, zero, suc, Bool, true, false, Option, none, some, List, [], ◌∷◌, map, Int64, add64, sub64,
  lt64, ◌==◌, if◌then◌else◌,
}

pub record Conn : Type 0 where
  pub weight : Int64
  pub current_weight : Int64
  pub available : Bool

-- `weight` of the metadata of the address, 0 where there is none.
unfoldable pub conn_of : Int64 → Conn
conn_of w = record { weight = if w == 0 then 10 else w; current_weight = 0; available = false }

unfoldable pub build : List Int64 → List Conn
unfolding conn_of
build ws = map conn_of ws

-- The loop of `Pick`: the total of the weights, and the place and the weight of the greatest.
pub record Scan : Type 0 where
  pub total : Int64
  pub max_place : Option ℕ
  pub max_weight : Int64

abbrev pub grow : Conn → Conn
grow c = if c.available then record c { current_weight = add64 c.weight c.current_weight } else c

abbrev pub is_greater : Option ℕ → Int64 → Int64 → Bool
is_greater none best w = true
is_greater (some _) best w = lt64 best w

abbrev pub look : ℕ → Conn → Scan → Scan
look place c s =
    if c.available
    then (let w = add64 c.weight c.current_weight in
        let t = add64 s.total c.weight in
        if is_greater s.max_place s.max_weight w
        then record { total = t; max_place = some place; max_weight = w }
        else record s { total = t })
    else s

abbrev pub scan : ℕ → List Conn → Scan → Scan
scan place [] s = s
scan place (c ∷ cs) s = scan (suc place) cs (look place c s)

abbrev pub start : Scan
start = record { total = 0; max_place = none; max_weight = 0 }

abbrev pub charge : ℕ → Int64 → List Conn → List Conn
charge place t [] = []
charge zero t (c ∷ cs) = record c { current_weight = sub64 c.current_weight t } ∷ cs
charge (suc place) t (c ∷ cs) = c ∷ charge place t cs

-- A pick, no connection at all, or the dereference of a nil pointer.
pub data Picked : Type 0 where
  picked : ℕ → Picked
  no_conn : Picked
  panics : Picked

abbrev pub take_place : Option ℕ → Int64 → List Conn → Picked × List Conn
take_place none t cs = (panics, map grow cs)
take_place (some place) t cs = (picked place, charge place t (map grow cs))

abbrev pub pick_from : Scan → List Conn → Picked × List Conn
pick_from s cs = take_place s.max_place s.total cs

unfoldable pub pick : List Conn → Picked × List Conn
pick [] = (no_conn, [])
pick (c ∷ cs) = pick_from (scan 0 (c ∷ cs) start) (c ∷ cs)
