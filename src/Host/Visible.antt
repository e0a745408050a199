-- ===== src/Host/Visible.antt =====
-- What of the host's doing is visible, and how it adds up along a chain.
use pic_x.Base.{
  List, [], ◌∷◌, ◌++◌, Bool, true, false, ◌&&◌, if◌then◌else◌, ◌≡◌, refl, sym, ◌∙◌, ap, Bool-cases,
  inl, inr, ok, err, pure, ◌>>=◌, ◌>>◌,
}
use mathlib.Core.List.{append-nil, append_assoc}
use pic_x.Host.{
  HostEvent, stopped, made_ready, released_store, released_trail, released_sink, Host, Within,
  HostError, Hosting, logged, asks, attempts,
}

-- Readiness, and the calls that release something.
abbrev pub shows : HostEvent → Bool
shows (stopped _) = true
shows (made_ready _) = true
shows released_store = true
shows (released_trail _) = true
shows released_sink = true
shows _ = false

unfoldable pub visible : List HostEvent → List HostEvent
visible [] = []
visible (e ∷ es) = let rest = visible es in if shows e then e ∷ rest else rest

pub visible-append : (es fs : List HostEvent) → visible (es ++ fs) ≡ visible es ++ visible fs
unfolding visible
visible-append [] fs = refl
visible-append (e ∷ es) fs = elim (Bool-cases (shows e)) [
  | inl h ↦ rw (h, visible-append es fs) refl
  | inr h ↦ rw (h, visible-append es fs) refl
]

-- A call that comes back well and adds these events to what is visible.
pub record Went {A : Type 0} (xs : List HostEvent) (m : Hosting A) (h : Host) : Type 0 where
  pub value : A
  pub after : Host
  pub came : m h ≡ (ok value, after)
  pub shown : visible after.done ≡ visible h.done ++ xs

abbrev pub Always : {A : Type 0} → List HostEvent → Hosting A → Type 0
Always xs m = (h : Host) → Went xs m h

abbrev pub Shown : {A : Type 0} → List HostEvent → Hosting A → Type 0
Shown xs m = (h : Host) → visible (m h).1.done ≡ visible h.done ++ xs

pub Always-then :
    {A B : Type 0} (xs ys : List HostEvent) (m : Hosting A) (f : A → Hosting B)
    → Always xs m
    → ((a : A) → Always ys (f a))
    → Always (xs ++ ys) (m >>= f)
Always-then xs ys m f x y h =
    let p = x h in
    let q = y p.value p.after in
    record {
      value = q.value;
      after = q.after;
      came = rw p.came q.came;
      shown = q.shown ∙ ap (λ v. v ++ ys) p.shown ∙ append_assoc (visible h.done) xs ys;
    }

pub Always-Shown :
    {A B : Type 0} (xs ys : List HostEvent) (m : Hosting A) (f : A → Hosting B)
    → Always xs m
    → ((a : A) → Shown ys (f a))
    → Shown (xs ++ ys) (m >>= f)
Always-Shown xs ys m f x y h =
    let p = x h in
    rw p.came (y p.value p.after ∙ ap (λ v. v ++ ys) p.shown ∙ append_assoc (visible h.done) xs ys)

pub Always-pure : {A : Type 0} (a : A) → Always [] (pure a)
Always-pure a h = record {
  value = a;
  after = h;
  came = refl;
  shown = sym (append-nil (visible h.done));
}

pub Always-value :
    {A B : Type 0} (xs : List HostEvent) (m : Hosting A) (f : A → B)
    → Always xs m
    → Always xs (m >>= λ a. pure (f a))
Always-value xs m f x h =
    let p = x h in
    record { value = f p.value; after = p.after; came = rw p.came refl; shown = p.shown }

pub asks-Always :
    (answer : Within) (event : HostEvent) → Always (visible (event ∷ [])) (asks answer event)
asks-Always answer event h = record {
  value = answer;
  after = logged event h;
  came = refl;
  shown = visible-append h.done (event ∷ []);
}

-- A step that shows nothing, and goes on exactly when a test holds.
pub record Decides (b : Bool) (m : Hosting (Unit {0})) (h : Host) : Type 0 where
  pub after : Host
  pub hidden : visible after.done ≡ visible h.done
  pub goes : b ≡ true → m h ≡ (ok tt, after)
  pub fails : b ≡ false → (e : HostError) × (m h ≡ (err e, after))

abbrev pub Decided : Bool → Hosting (Unit {0}) → Type 0
Decided b m = (h : Host) → Decides b m h

pub attempts-Decided :
    (b : Bool) (e : HostError) (event : HostEvent)
    → shows event ≡ false
    → Decided b (attempts b e event)
unfolding visible
attempts-Decided b e event s h = record {
  after = logged event h;
  hidden = visible-append h.done (event ∷ []) ∙ rw s (append-nil (visible h.done));
  goes = λ t. rw t refl;
  fails = λ f. (e, rw f refl);
}

pub Decided-then :
    (b c : Bool) (m n : Hosting (Unit {0})) → Decided b m → Decided c n → Decided (b && c) (m >> n)
Decided-then true c m n x y h =
    let p = x h in
    let q = y p.after in
    record {
      after = q.after;
      hidden = q.hidden ∙ p.hidden;
      goes = λ t. rw (p.goes refl) (q.goes t);
      fails = λ f. rw (p.goes refl) (q.fails f);
    }
Decided-then false c m n x y h =
    let p = x h in
    let (e, k) = p.fails refl in
    record { after = p.after; hidden = p.hidden; goes = λ t. cc; fails = λ f. (e, rw k refl) }

pub Decided-Shown :
    (b : Bool) (xs : List HostEvent) (m n : Hosting (Unit {0}))
    → Decided b m
    → Shown xs n
    → Shown (if b then xs else []) (m >> n)
Decided-Shown true xs m n x y h =
    let p = x h in rw (p.goes refl) (y p.after ∙ ap (λ v. v ++ xs) p.hidden)
Decided-Shown false xs m n x y h =
    let p = x h in let (e, k) = p.fails refl in rw k (p.hidden ∙ sym (append-nil (visible h.done)))
