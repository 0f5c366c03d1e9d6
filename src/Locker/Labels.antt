-- ===== src/Locker/Labels.antt =====
-- Labels of lockers (locker.go): a label as its parts, which strings.Split cuts at the commas.
use goto.Params.Mux
use goto.Prelude.{
  ℕ, ◌≡◌, ◌≢◌, refl, ap, arith, Bool, true, false, ◌&&◌, ◌||◌, List, [], ◌∷◌, ◌++◌, if◌then◌else◌,
  Text, text_eq, Eq, ◌==◌, eq_iff, nat_beq, ◌↔◌, subst,
}

abbrev comma : ℕ
comma = 44

-- strings.Split(label, ",")
unfoldable pub split : Text → List Text
unfolding Mux.split
split s = Mux.split comma s

-- strings.Join(labels, ",")
unfoldable pub join : List Text → Text
join [] = []
join (l ∷ []) = l
join (l ∷ m ∷ ls) = l ++ comma ∷ join (m ∷ ls)

pub split_cons : (s : Text) → (l : Text) × (ls : List Text) × (split s ≡ l ∷ ls)
unfolding split
split_cons [] = ([], [], refl)
split_cons (c ∷ s) =
    let (l, ls, e) = split_cons s in
    elim (nat_beq c comma)
      as (λ b.
        (l : Text) × (ls : List Text) × ((if b then [] ∷ split s else Mux.split_cons c (split s))
          ≡ l ∷ ls)) [ true ↦ ([], split s, refl) | false ↦ (c ∷ l, ls, ap (Mux.split_cons c) e) ]

join-prepend :
    (c : ℕ) (l : Text) (ls : List Text) → join (Mux.split_cons c (l ∷ ls)) ≡ c ∷ join (l ∷ ls)
unfolding join
join-prepend c l [] = refl
join-prepend c l (m ∷ ls) = refl

pub join_one : (l : Text) → join (l ∷ []) ≡ l
unfolding join
join_one l = refl

join-empty : (l : Text) (ls : List Text) → join ([] ∷ l ∷ ls) ≡ comma ∷ join (l ∷ ls)
unfolding join
join-empty l ls = refl

-- A label is its parts joined by commas, so labels are told apart by their parts.
pub join-split : (s : Text) → join (split s) ≡ s
unfolding split
join-split [] = join_one []
join-split (c ∷ s) =
    let (l, ls, e) = split_cons s in
    ground (arith, e, ap join e, join-split s, join-empty l ls, join-prepend c l ls)

pub labels_beq : List Text → List Text → Bool
labels_beq [] [] = true
labels_beq [] (m ∷ ms) = false
labels_beq (l ∷ ls) [] = false
labels_beq (l ∷ ls) (m ∷ ms) = l == m && labels_beq ls ms

labels_beq→eq : (ls ms : List Text) → labels_beq ls ms ≡ true → ls ≡ ms
unfolding labels_beq
labels_beq→eq [] [] h = refl
labels_beq→eq [] (m ∷ ms) h = cc
labels_beq→eq (l ∷ ls) [] h = cc
labels_beq→eq (l ∷ ls) (m ∷ ms) h = ground (arith, eq_iff l m, labels_beq→eq ls ms)

labels_beq_refl : (ls : List Text) → labels_beq ls ls ≡ true
unfolding labels_beq
labels_beq_refl [] = refl
labels_beq_refl (l ∷ ls) = ground (arith, eq_iff l l, labels_beq_refl ls)

pub labels_beq_iff : (ls ms : List Text) → (labels_beq ls ms ≡ true) ↔ (ls ≡ ms)
labels_beq_iff ls ms =
    (labels_beq→eq ls ms, λ e. subst (λ ks. labels_beq ls ks ≡ true) e (labels_beq_refl ls))

instance unfoldable pub labels_eq : Eq (List Text)
unfolding labels_beq
labels_eq = record { same = labels_beq; decides = labels_beq_iff }

-- Whether the one path of labels begins the other.
unfoldable pub is_prefix : List Text → List Text → Bool
is_prefix [] q = true
is_prefix (l ∷ p) [] = false
is_prefix (l ∷ p) (m ∷ q) = l == m && is_prefix p q

pub is_prefix_refl : (p : List Text) → is_prefix p p ≡ true
unfolding is_prefix
is_prefix_refl [] = refl
is_prefix_refl (l ∷ p) = ground (arith, eq_iff l l, is_prefix_refl p)

pub is_prefix_trans :
    (p q r : List Text) → is_prefix p q ≡ true → is_prefix q r ≡ true → is_prefix p r ≡ true
unfolding is_prefix
is_prefix_trans [] q r h k = refl
is_prefix_trans (l ∷ p) [] r h k = cc
is_prefix_trans (l ∷ p) (m ∷ q) [] h k = cc
is_prefix_trans (l ∷ p) (m ∷ q) (n ∷ r) h k =
    ground (arith, eq_iff l m, eq_iff m n, eq_iff l n, is_prefix_trans p q r)

pub is_prefix-append : (p q : List Text) → is_prefix p (p ++ q) ≡ true
unfolding is_prefix
is_prefix-append [] q = refl
is_prefix-append (l ∷ p) q = ground (arith, eq_iff l l, is_prefix-append p q)

pub is_prefix-snoc :
    (p q : List Text) (l : Text) → is_prefix p (q ++ l ∷ []) ≡ (is_prefix p q || p == q ++ l ∷ [])
unfolding is_prefix labels_eq labels_beq
is_prefix-snoc [] [] l = refl
is_prefix-snoc [] (m ∷ q) l = refl
is_prefix-snoc (k ∷ []) [] l = ground arith
is_prefix-snoc (k ∷ j ∷ p) [] l = ground arith
is_prefix-snoc (k ∷ p) (m ∷ q) l = ground (arith, is_prefix-snoc p q l)

pub is_prefix-longer : (q : List Text) (k : Text) → is_prefix (q ++ k ∷ []) q ≡ false
unfolding is_prefix
is_prefix-longer [] k = refl
is_prefix-longer (l ∷ q) k = ground (arith, eq_iff l l, is_prefix-longer q k)

pub nil_ne_snoc : (p : List Text) (l : Text) → [] ≢ p ++ l ∷ []
nil_ne_snoc [] l = cc
nil_ne_snoc (k ∷ p) l = cc

pub snoc_prefix-nil : (p : List Text) (l : Text) → is_prefix (p ++ l ∷ []) [] ≡ false
unfolding is_prefix
snoc_prefix-nil [] l = refl
snoc_prefix-nil (k ∷ p) l = refl

pub snoc_inj : (p q : List Text) (l m : Text) → p ++ l ∷ [] ≡ q ++ m ∷ [] → (p ≡ q) × (l ≡ m)
snoc_inj [] [] l m e = (refl, ground (arith, e))
snoc_inj [] (j ∷ q) l m e = absurd (nil_ne_snoc q m (ground (arith, e)))
snoc_inj (k ∷ p) [] l m e = absurd (nil_ne_snoc p l (ground (arith, e)))
snoc_inj (k ∷ p) (j ∷ q) l m e = ground (arith, e, snoc_inj p q l m)
