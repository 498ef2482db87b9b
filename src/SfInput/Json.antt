-- ===== src/SfInput/Json.antt =====
-- The values that the route reads, and the text operations on them.
use min_demo.Base.{ℕ, String, Bool, true, false, ◌&&◌, List, [], ◌∷◌, if◌then◌else◌, is_space, Text}

-- A number: `whole n`, `below n` for -(n + 1), or one that is not finite. Fractions are left out.
pub data Number : Type 0 where
  whole : ℕ → Number
  below : ℕ → Number
  infinite : Number

-- A JavaScript value. The fields of an object that it lacks read as `undefined`.
mutual
  pub data Json : Type 0 where
    undefined null : Json
    bool : Bool → Json
    number : Number → Json
    text : Text → Json
    array : Items → Json
    object : (String → Json) → Json

  pub data Items : Type 0 where
    nil : Items
    cons : Json → Items → Items

unfoldable pub to_list : Items → List Json
to_list nil = []
to_list (cons j js) = j ∷ to_list js

abbrev pub null? : Text → Bool
null? [] = true
null? (c ∷ s) = false

unfoldable pub trim_front : Text → Text
trim_front [] = []
trim_front (c ∷ s) = if is_space c then trim_front s else c ∷ s

unfoldable pub trim_back : Text → Text
trim_back [] = []
trim_back (c ∷ s) = let rest = trim_back s in if is_space c && null? rest then [] else c ∷ rest

-- `s.trim()`.
unfoldable pub trim_text : Text → Text
trim_text s = trim_back (trim_front s)
