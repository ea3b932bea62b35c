-- ===== src/Core/Hotwords/Format.antt =====
-- The canonical format: what `parse_hotwords` accepts, and that it reads back what is written.
use funasr_api.Prelude.{◌≡◌, refl, false, Option, none, some, List, [], ◌∷◌, arith, All}
use funasr_api.Prelude.Int.{ℤ, pos, ◌≤ℤ◌}
use funasr_api.Prelude.Text.{Text, codes, is_empty, strip, text_eq}
use funasr_api.Prelude.Text.Strip.{strip-strip}
use funasr_api.Core.Hotwords.{
  Json, null, boolean, integer, float, text, array, object, Items, no_items, item, no_members,
  member, Hotword, find_member, read_weight, read_word, pair_up, read_item, prepend,
  normalize_items, normalize_hotword_items,
}

-- A weight from 1 to 100, and a word that is not empty and has no white space round it.
pub record IsCanonical (h : Hotword) : Type 0 where
  pub low : pos 1 ≤ℤ h.weight
  pub high : h.weight ≤ℤ pos 100
  pub stripped : strip h.hotword ≡ h.hotword
  pub solid : is_empty h.hotword ≡ false

-- `{"weight": w, "hotword": word}`
unfoldable pub encode_item : Hotword → Json
encode_item h = object (
    member (codes "weight") (integer h.weight)
      (member (codes "hotword") (text h.hotword) no_members))

unfoldable pub encode_items : List Hotword → Items
encode_items [] = no_items
encode_items (h ∷ hs) = item (encode_item h) (encode_items hs)

unfoldable pub encode : List Hotword → Json
encode hs = array (encode_items hs)

read_weight_lem : (o : Option Json) (w : ℤ) → read_weight o ≡ some w → (pos 1 ≤ℤ w) × (w ≤ℤ pos 100)
unfolding read_weight
read_weight_lem (some (integer v)) w h = ground arith
read_weight_lem (some null) w h = cc
read_weight_lem (some (boolean b)) w h = cc
read_weight_lem (some float) w h = cc
read_weight_lem (some (text t)) w h = cc
read_weight_lem (some (array js)) w h = cc
read_weight_lem (some (object ms)) w h = cc
read_weight_lem none w h = cc

read_word_lem :
    (o : Option Json) (t : Text) → read_word o ≡ some t → (strip t ≡ t) × (is_empty t ≡ false)
unfolding read_word
read_word_lem (some (text v)) t h = ground (arith, strip-strip v)
read_word_lem (some null) w h = cc
read_word_lem (some (boolean b)) w h = cc
read_word_lem (some float) w h = cc
read_word_lem (some (integer t)) w h = cc
read_word_lem (some (array js)) w h = cc
read_word_lem (some (object ms)) w h = cc
read_word_lem none w h = cc

pair_up-IsCanonical :
    (w : Option Json) (t : Option Json) (h : Hotword)
    → pair_up (read_weight w) (read_word t) ≡ some h
    → IsCanonical h
pair_up-IsCanonical w t h e = ground (arith, read_weight_lem w h.weight, read_word_lem t h.hotword)

read_item-IsCanonical : (j : Json) (h : Hotword) → read_item j ≡ some h → IsCanonical h
unfolding read_item
read_item-IsCanonical (object ms) h e = ground (
  arith,
  pair_up-IsCanonical (find_member (codes "weight") ms) (find_member (codes "hotword") ms) h,
)
read_item-IsCanonical j h e = cc

prepend_lem :
    (o : Option Hotword) (r : Option (List Hotword)) (hs : List Hotword)
    → prepend o r ≡ some hs
    → (h : Hotword) × (t : List Hotword) × (o ≡ some h) × (r ≡ some t) × (hs ≡ h ∷ t)
prepend_lem (some h) (some t) hs e = (h, t, refl, refl, ground arith)
prepend_lem (some h) none hs e = cc
prepend_lem none r hs e = cc

normalize_items-IsCanonical :
    (js : Items) (hs : List Hotword) → normalize_items js ≡ some hs → All IsCanonical hs
unfolding normalize_items
normalize_items-IsCanonical no_items [] e = tt
normalize_items-IsCanonical no_items (h ∷ hs) e = cc
normalize_items-IsCanonical (item j js) hs e =
    let (h, t, head, tail, whole) = prepend_lem (read_item j) (normalize_items js) hs e in
    rw whole (read_item-IsCanonical j h head, normalize_items-IsCanonical js t tail)

-- Whatever hotwords a JSON value is read as, each has a weight from 1 to 100 and a word that is
-- not empty and has no white space at its ends.
pub normalize-IsCanonical :
    (j : Json) (hs : List Hotword) → normalize_hotword_items j ≡ some hs → All IsCanonical hs
unfolding normalize_hotword_items
normalize-IsCanonical (array js) hs e = normalize_items-IsCanonical js hs e
normalize-IsCanonical null hs e = cc
normalize-IsCanonical (boolean b) hs e = cc
normalize-IsCanonical (integer z) hs e = cc
normalize-IsCanonical float hs e = cc
normalize-IsCanonical (text t) hs e = cc
normalize-IsCanonical (object ms) hs e = cc

read_encoded : (h : Hotword) → IsCanonical h → read_item (encode_item h) ≡ some h
unfolding read_item encode_item text_eq
read_encoded h c = ground (arith, c.stripped)

normalize_items-encode :
    (hs : List Hotword) → All IsCanonical hs → normalize_items (encode_items hs) ≡ some hs
unfolding normalize_items encode_items
normalize_items-encode [] c = refl
normalize_items-encode (h ∷ hs) c =
    ground (arith, read_encoded h c.0, normalize_items-encode hs c.1)

-- A list of canonical hotwords written as JSON is read back as the same list.
pub normalize-encode :
    (hs : List Hotword) → All IsCanonical hs → normalize_hotword_items (encode hs) ≡ some hs
unfolding normalize_hotword_items encode
normalize-encode hs c = normalize_items-encode hs c
