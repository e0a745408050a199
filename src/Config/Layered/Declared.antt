-- ===== src/Config/Layered/Declared.antt =====
-- The settings that a build declares, and the lifecycle settings that some layer stated.
use pic_x.Base.{
  Text, Option, none, some, List, [], ◌∷◌, Bool, Bool-cases, inl, inr, true, false, ◌||◌,
  if◌then◌else◌, ◌≡◌, refl, ◌∙◌, ap, text_eq, has_text, lookup, text_eq_sound, text_eq_refl,
}
use pic_x.Config.Keys.{setting_keys_publish_ahead, setting_keys_rotate_every, setting_keys_retain}
use pic_x.Config.Layer.{Pairs, get, declare}
use pic_x.Config.Groups.{declared_in}
use pic_x.Config.Apply.{put_value, declare_values, Layers}
use pic_x.Config.Layered.Chosen.{over, topmost}

-- What a layer says of a key stands in front of what was known.
lookup-put_value_same :
    (key : Text) (o : Option Text) (values : Pairs)
    → lookup key (put_value key o values) ≡ over o (lookup key values)
unfolding lookup over
lookup-put_value_same key none values = refl
lookup-put_value_same key (some v) values = rw (text_eq_refl key) refl

lookup-put_value_other :
    (k key : Text) (o : Option Text) (values : Pairs)
    → text_eq k key ≡ false
    → lookup key (put_value k o values) ≡ lookup key values
unfolding lookup
lookup-put_value_other k key none values h = refl
lookup-put_value_other k key (some v) values h = rw h refl

over_over : (o below : Option Text) → over o (over o below) ≡ over o below
unfolding over
over_over none below = refl
over_over (some v) below = refl

over_twice :
    (b : Bool) (o x below : Option Text)
    → x ≡ over o below
    → (if b then over o x else x) ≡ over o below
over_twice true o x below h = ap (over o) h ∙ over_over o below
over_twice false o x below h = h

lookup-put_value_eq :
    (s : Pairs) (k key : Text) (values : Pairs)
    → k ≡ key
    → lookup key (put_value k (get k s) values) ≡ over (get key s) (lookup key values)
lookup-put_value_eq s k key values e = rw e (lookup-put_value_same key (get key s) values)

pub lookup-declare_values :
    (s : Pairs) (declared : List Text) (key : Text) (values : Pairs)
    → lookup key (declare_values s declared values)
      ≡ (if has_text declared key then over (get key s) (lookup key values) else lookup key values)
unfolding declare_values has_text
lookup-declare_values s [] key values = refl
lookup-declare_values s (k ∷ ks) key values =
    let below = lookup-declare_values s ks key (put_value k (get k s) values) in
    elim (Bool-cases (text_eq k key)) [
      | inl h ↦
          let e = text_eq_sound k key h in
          below
          ∙ over_twice (has_text ks key) _ _ _ (lookup-put_value_eq s k key values e)
          ∙ rw h refl
      | inr h ↦
          let other = lookup-put_value_other k key (get k s) values h in below ∙ rw (h, other) refl
    ]

if_over :
    (b : Bool) (o : Option Text) {x : Option Text} (y : Option Text)
    → x ≡ (if b then y else none)
    → (if b then over o x else x) ≡ (if b then over o y else none)
if_over true o y h = ap (over o) h
if_over false o y h = h

abbrev pub values_after : Layers → List Text → Pairs
values_after l declared =
    declare_values l.command_line declared
      (declare_values l.environment declared (declare_values l.file declared []))

-- After all layers, a declared setting is known by the topmost layer's value, and no other is known.
pub lookup-values_after :
    (l : Layers) (declared : List Text) (key : Text)
    → lookup key (values_after l declared) ≡ (if has_text declared key then topmost l key else none)
unfolding lookup over
lookup-values_after l declared key =
    lookup-declare_values l.command_line declared key _
    ∙ if_over (has_text declared key) (get key l.command_line) _ (
        lookup-declare_values l.environment declared key _
        ∙ if_over (has_text declared key) (get key l.environment) _
            (lookup-declare_values l.file declared key []))

pub values_after_steps :
    (l : Layers) (declared : List Text) {d e : List Text} {v w x : Pairs}
    → d ≡ declared
    → e ≡ d
    → v ≡ declare_values l.file declared []
    → w ≡ declare_values l.environment d v
    → x ≡ declare_values l.command_line e w
    → x ≡ values_after l declared
values_after_steps l declared hd he hv hw hx = cc

abbrev pub is_there {ℓ} : {A : Type ℓ} → Option A → Bool
is_there none = false
is_there (some _) = true

has_text-declare :
    (key : Text) (o : Option Text) (set : List Text)
    → has_text (declare key o set) key ≡ (is_there o || has_text set key)
unfolding has_text
has_text-declare key none set = refl
has_text-declare key (some v) set = rw (text_eq_refl key) refl

has_text-declare_other :
    (k key : Text) (o : Option Text) (set : List Text)
    → text_eq k key ≡ false
    → has_text (declare k o set) key ≡ has_text set key
unfolding has_text
has_text-declare_other k key none set h = refl
has_text-declare_other k key (some v) set h = rw h refl

-- A setting of the lifecycle is on record exactly when some layer stated it.
abbrev Stated : Text → Type 0
Stated key =
    (s : Pairs) (set : List Text)
    → has_text (declared_in s set) key ≡ (is_there (get key s) || has_text set key)

publish_ahead-Stated : Stated setting_keys_publish_ahead
unfolding text_eq
publish_ahead-Stated s set =
    has_text-declare_other setting_keys_retain _ (get setting_keys_retain s) _ refl
    ∙ has_text-declare_other setting_keys_rotate_every _ (get setting_keys_rotate_every s) _ refl
    ∙ has_text-declare _ (get setting_keys_publish_ahead s) set

rotate_every-Stated : Stated setting_keys_rotate_every
unfolding text_eq
rotate_every-Stated s set =
    has_text-declare_other setting_keys_retain _ (get setting_keys_retain s) _ refl
    ∙ has_text-declare _ (get setting_keys_rotate_every s) _
    ∙ ap (λ b. is_there (get setting_keys_rotate_every s) || b)
        (has_text-declare_other setting_keys_publish_ahead _ (get setting_keys_publish_ahead s) set
          refl)

retain-Stated : Stated setting_keys_retain
unfolding text_eq
retain-Stated s set =
    has_text-declare _ (get setting_keys_retain s) _
    ∙ ap (λ b. is_there (get setting_keys_retain s) || b)
        (has_text-declare_other setting_keys_rotate_every _ (get setting_keys_rotate_every s) _ refl
          ∙ has_text-declare_other setting_keys_publish_ahead _ (get setting_keys_publish_ahead s)
              set refl)

over_there :
    (a b c : Option Text)
    → (is_there a || (is_there b || (is_there c || false)))
      ≡ is_there (over a (over b (over c none)))
unfolding over
over_there (some a) b c = refl
over_there none (some b) c = refl
over_there none none (some c) = refl
over_there none none none = refl

abbrev after_all : Layers → List Text
after_all l = declared_in l.command_line (declared_in l.environment (declared_in l.file []))

Stated-topmost :
    (key : Text) → Stated key → (l : Layers) → has_text (after_all l) key ≡ is_there (topmost l key)
unfolding has_text
Stated-topmost key h l =
    h l.command_line _
    ∙ ap (λ b. is_there (get key l.command_line) || b)
        (h l.environment _ ∙ ap (λ b. is_there (get key l.environment) || b) (h l.file []))
    ∙ over_there (get key l.command_line) (get key l.environment) (get key l.file)

-- The lifecycle settings on record after all layers are those that some layer supplies.
pub record AreStated (l : Layers) (set : List Text) : Type 0 where
  pub publish_ahead :
      has_text set setting_keys_publish_ahead ≡ is_there (topmost l setting_keys_publish_ahead)
  pub rotate_every :
      has_text set setting_keys_rotate_every ≡ is_there (topmost l setting_keys_rotate_every)
  pub retain : has_text set setting_keys_retain ≡ is_there (topmost l setting_keys_retain)

pub after_all-AreStated : (l : Layers) → AreStated l (after_all l)
after_all-AreStated l = record {
  publish_ahead = Stated-topmost _ publish_ahead-Stated l;
  rotate_every = Stated-topmost _ rotate_every-Stated l;
  retain = Stated-topmost _ retain-Stated l;
}
