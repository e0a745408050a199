-- ===== src/Config/Layered/Chosen.antt =====
-- What the topmost layer that supplies a setting says, and that reading the layers in turn comes to it.
use pic_x.Base.{Text, Option, none, some, ◌≡◌, refl, Result, ok, err, subst}
use pic_x.Config.Parse.{ParseError}
use pic_x.Config.Layer.{get, given, with_context, setting_of}
use pic_x.Config.Apply.{Layers}

-- The first that is there.
unfoldable pub over {ℓ} : {A : Type ℓ} → Option A → Option A → Option A
over none below = below
over (some a) below = some a

abbrev pub topmost : Layers → Text → Option Text
topmost l key =
    over (get key l.command_line) (over (get key l.environment) (over (get key l.file) none))

-- The value of a setting is what its text says, or the default where there is no text.
unfoldable pub IsChosen : {A : Type 0} → (Text → Result ParseError A) → A → A → Option Text → Type 0
IsChosen parse default a none = a ≡ default
IsChosen parse default a (some v) = parse v ≡ ok a

with_context-ok :
    {A : Type 0} {a : A} (key : Text) (r : Result ParseError A)
    → with_context key r ≡ ok a
    → r ≡ ok a
with_context-ok key (ok a) h = cc
with_context-ok key (err e) h = cc

given-IsChosen :
    {A : Type 0} {a : A} (key : Text) (parse : Text → Result ParseError A) (default before : A)
    (o below : Option Text)
    → IsChosen parse default before below
    → given key parse before o ≡ ok a
    → IsChosen parse default a (over o below)
unfolding IsChosen over
given-IsChosen key parse default before none below c h =
    let e : before ≡ _ = cc in subst (λ b. IsChosen parse default b below) e c
given-IsChosen key parse default before (some v) below c h = with_context-ok key (parse v) h

-- Three layers in turn leave what the topmost that supplies the setting says.
pub setting_of-IsChosen :
    {A : Type 0} {filed running a : A} (l : Layers) (key : Text)
    (parse : Text → Result ParseError A) (default : A)
    → setting_of l.file key parse default ≡ ok filed
    → setting_of l.environment key parse filed ≡ ok running
    → setting_of l.command_line key parse running ≡ ok a
    → IsChosen parse default a (topmost l key)
unfolding setting_of IsChosen
setting_of-IsChosen l key parse default f e c =
    given-IsChosen key parse default _ (get key l.command_line) _
      (given-IsChosen key parse default _ (get key l.environment) _
        (given-IsChosen key parse default default (get key l.file) none refl f) e)
      c
