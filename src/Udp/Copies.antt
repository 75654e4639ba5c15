-- ===== src/Udp/Copies.antt =====
-- Copies of a datagram in the read buffer, and reading all of them.
use usmp_python.Prelude.{
  ℕ, zero, suc, ◌*◌, ◌≤◌, ◌≡◌, refl, ap, ◌∙◌, true, some, none, Option, List, [], ◌∷◌, map,
  replicate, arith, length, length-append, All,
}
use usmp_python.Errors.{Result}
use usmp_python.Types.{Bytes, UsmpFrame}
use usmp_python.Frame.{decode_frame}
use usmp_python.Udp.Stream.{Stream}
use usmp_python.Udp.Read.{read_frame}
use usmp_python.Udp.Queue.{concat, Holds, read_frame-Holds}
use usmp_python.Udp.Network.{Fate, received}

-- So many calls of `read_frame`; `none` if one waits.
abbrev pub cons_read :
    Result UsmpFrame
    → Option (List (Result UsmpFrame) × Stream)
    → Option (List (Result UsmpFrame) × Stream)
cons_read r none = none
cons_read r (some (rs, s)) = some (r ∷ rs, s)

abbrev pub read_then :
    (Stream → Option (List (Result UsmpFrame) × Stream))
    → Option (Result UsmpFrame × Stream)
    → Option (List (Result UsmpFrame) × Stream)
read_then next none = none
read_then next (some (r, s)) = cons_read r (next s)

unfoldable pub reads : ℕ → Stream → Option (List (Result UsmpFrame) × Stream)
reads zero s = some ([], s)
reads (suc n) s = read_then (reads n) (read_frame true s)

pub reads-Holds :
    (q : List Bytes) (s : Stream)
    → Holds q s
    → (s' : Stream) × (reads (length q) s ≡ some (map (λ d. decode_frame d true) q, s'))
      × Holds [] s'
unfolding reads
reads-Holds [] s h = (s, refl, h)
reads-Holds (d ∷ q) s h =
    let (t, first, rest) = read_frame-Holds true d q s h in
    let (s', later, empty) = reads-Holds q t rest in
    (
      s',
      ap (read_then (reads (length q))) first ∙ ap (cons_read (decode_frame d true)) later,
      empty,
    )

pub map-replicate :
    {A B : Type 0} (f : A → B) (n : ℕ) (a : A) → map f (replicate n a) ≡ replicate n (f a)
map-replicate f zero a = refl
map-replicate f (suc n) a = ap (λ bs. f a ∷ bs) (map-replicate f n a)

pub All-replicate : {A : Type 0} (P : A → Type 0) (n : ℕ) (a : A) → P a → All P (replicate n a)
All-replicate P zero a h = tt
All-replicate P (suc n) a h = (h, All-replicate P n a h)

pub received-le : (fates : List Fate) → received fates ≤ length fates
received-le [] = omega arith
received-le (Fate.lost ∷ fates) = omega (arith, received-le fates)
received-le (Fate.unanswered ∷ fates) = omega (arith, received-le fates)
received-le (Fate.answered ∷ fates) = omega arith

pub length-copies : (d : Bytes) (n : ℕ) → length d ≤ 492 → length (concat (replicate n d)) ≤ 492 * n
length-copies d zero h = omega arith
length-copies d (suc n) h =
    omega (arith, h, length-append d (concat (replicate n d)), length-copies d n h)
