-- ===== src/Json/Sprint.antt =====
-- `fmt.Sprintf("%v", v)` on decoded JSON, and the decimal text of an index. What `%v` writes for a
-- float64 is a parameter.
use webhook_mind.Prelude.{
  List, String, [], false, get_or, if◌then◌else◌, ltb, refl, suc, true, zero, ℕ, ◌%◌, ◌/◌, ◌<>◌,
  ◌∷◌, ◌≡◌,
}
use Prim.Native.String
use Prim.Native.Nat.{Ordering}
use webhook_mind.Json.Defs.{
  Fields, Items, Json, arr, bool, cons, end, member, nil, null, num, obj, str,
}

abbrev digit : ℕ → String
digit d = get_or ("0" ∷ "1" ∷ "2" ∷ "3" ∷ "4" ∷ "5" ∷ "6" ∷ "7" ∷ "8" ∷ "9" ∷ []) d ""

-- The digits of `n` before `acc`; as much fuel as `n` has digits is enough, and `n + 1` is more.
decimal_from : ℕ → ℕ → String → String
decimal_from zero n acc = acc
decimal_from (suc f) n acc =
    let rest = decimal_from f (n / 10) (digit (n % 10) <> acc) in
    if ltb n 10 then digit n <> acc else rest

-- `%d` of an index.
unfoldable pub decimal : ℕ → String
unfolding decimal_from
decimal n = decimal_from (suc n) n ""

-- `fmt` prints a map by ascending keys.
insert_sorted : String → String → List (String × String) → List (String × String)
insert_sorted k t [] = (k, t) ∷ []
insert_sorted k t ((j, u) ∷ m) = elim (String.compare k j) [
  | Ordering.gt ↦ (j, u) ∷ insert_sorted k t m
  | _ ↦ (k, t) ∷ (j, u) ∷ m
]

join_members : List (String × String) → String
join_members [] = ""
join_members ((k, t) ∷ []) = k <> ":" <> t
join_members ((k, t) ∷ (j, u) ∷ m) = k <> ":" <> t <> " " <> join_members ((j, u) ∷ m)

module _ (format_float : ℕ → String) where
  unfoldable mutual
    unfolding insert_sorted join_members

    -- `%v`
    pub sprint : Json → String
    sprint null = "<nil>"
    sprint (bool true) = "true"
    sprint (bool false) = "false"
    sprint (num b) = format_float b
    sprint (str s) = s
    sprint (arr xs) = "[" <> sprint_items xs <> "]"
    sprint (obj fs) = "map[" <> join_members (sprint_fields fs) <> "]"

    sprint_items : Items → String
    sprint_items nil = ""
    sprint_items (cons x nil) = sprint x
    sprint_items (cons x (cons y xs)) = sprint x <> " " <> sprint_items (cons y xs)

    -- The printed members, by key.
    sprint_fields : Fields → List (String × String)
    sprint_fields end = []
    sprint_fields (member k v fs) = insert_sorted k (sprint v) (sprint_fields fs)

decimal_test : decimal 120 ≡ "120"
unfolding decimal
decimal_test = refl

sprint_test :
    sprint
      (λ b. "1")
      (arr (cons (obj (member "b" null (member "a" (num 1) end))) (cons (str "x") nil)))
    ≡ "[map[a:1 b:<nil>] x]"
unfolding sprint
sprint_test = refl
