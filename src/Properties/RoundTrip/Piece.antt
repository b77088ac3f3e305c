-- ===== src/Properties/RoundTrip/Piece.antt =====
-- One round of `parse_loop` for each kind of property, and how pieces of a block compose.
use jack_hotaru_mqtt.Base.{
  ℕ, zero, suc, ◌≤◌, ◌<◌, ◌≡◌, refl, ◌∙◌, true, false, List, [], ◌∷◌, ◌++◌, length, All, any, ◌==◌,
  arith, length-append, append_assoc,
}
use jack_hotaru_mqtt.Error.{ok}
use jack_hotaru_mqtt.Properties.{Properties}
use jack_hotaru_mqtt.Properties.Parse.{repeatable, mark_seen, parse_value, parse_loop}

abbrev pub Below : ℕ → List ℕ → Type 0
Below n = All (λ j. j < n)

Below-mono : (m n : ℕ) (seen : List ℕ) → m ≤ n → Below m seen → Below n seen
Below-mono m n [] h b = tt
Below-mono m n (j ∷ seen) h b = (omega arith, Below-mono m n seen h b.1)

not_seen : (n : ℕ) (seen : List ℕ) → Below n seen → any (λ j. j == n) seen ≡ false
not_seen n [] b = refl
not_seen n (j ∷ seen) b = ground (arith, not_seen n seen b.1)

-- On a block that begins with `bs`, and if only identifiers below `lo` have been seen, the loop
-- consumes `bs`, changes the properties by `update`, and has then seen only identifiers below `hi`.
pub record Reads (bs : List ℕ) (lo hi : ℕ) (update : Properties → Properties) : Type 0 where
  pub run :
      (fuel : ℕ) (rest : List ℕ) (q : Properties) (seen : List ℕ)
      → Below lo seen
      → length (bs ++ rest) ≤ fuel
      → (fuel' : ℕ) × (seen' : List ℕ) × (parse_loop fuel (bs ++ rest) q seen
          ≡ parse_loop fuel' rest (update q) seen')
        × Below hi seen'
        × (length rest ≤ fuel')

pub Reads-nil : (lo hi : ℕ) → lo ≤ hi → Reads [] lo hi (λ q. q)
Reads-nil lo hi h = record {
  run = λ fuel rest q seen b l. (fuel, seen, refl, Below-mono lo hi seen h b, l);
}

pub Reads-append :
    {bs cs : List ℕ} {lo mid hi : ℕ} {f g : Properties → Properties}
    → Reads bs lo mid f
    → Reads cs mid hi g
    → Reads (bs ++ cs) lo hi (λ q. g (f q))
Reads-append {bs} {cs} {f} r s = record {
  run = λ fuel rest q seen b l.
      let (fuel1, seen1, e1, b1, l1) =
        r.run fuel (cs ++ rest) q seen b (rw (← append_assoc bs cs rest) l) in
      let (fuel2, seen2, e2, b2, l2) = s.run fuel1 rest (f q) seen1 b1 l1 in
      (fuel2, seen2, rw (append_assoc bs cs rest) (e1 ∙ e2), b2, l2);
}

pub Reads-loosen :
    {bs : List ℕ} {lo mid hi : ℕ} {f : Properties → Properties}
    → lo ≤ mid
    → Reads bs mid hi f
    → Reads bs lo hi f
Reads-loosen {lo} {mid} h r = record {
  run = λ fuel rest q seen b l. r.run fuel rest q seen (Below-mono lo mid seen h b) l;
}

mark_seen_new :
    (id : ℕ) (seen : List ℕ)
    → id < 64
    → repeatable id ≡ false
    → Below id seen
    → mark_seen id seen ≡ ok (id ∷ seen)
mark_seen_new id seen h r b = rw r (ground (arith, not_seen id seen b))

-- One property that may stand once.
pub Reads-once :
    (id : ℕ) (body : List ℕ) (update : Properties → Properties)
    → id < 64
    → repeatable id ≡ false
    → ((q : Properties) (rest : List ℕ) → parse_value id q (body ++ rest) ≡ ok (update q, rest))
    → Reads (id ∷ body) id (suc id) update
unfolding parse_loop
Reads-once id body update h r read = record {
  run = λ fuel rest q seen b l. step fuel rest q seen b l;
}
  where
    step :
        (fuel : ℕ) (rest : List ℕ) (q : Properties) (seen : List ℕ)
        → Below id seen
        → length ((id ∷ body) ++ rest) ≤ fuel
        → (fuel' : ℕ) × (seen' : List ℕ) × (parse_loop fuel ((id ∷ body) ++ rest) q seen
            ≡ parse_loop fuel' rest (update q) seen')
          × Below (suc id) seen'
          × (length rest ≤ fuel')
    step zero rest q seen b l = absurd (omega arith)
    step (suc fuel) rest q seen b l = (
      fuel,
      id ∷ seen,
      rw (mark_seen_new id seen h r b, read q rest),
      (omega arith, Below-mono id (suc id) seen (omega arith) b),
      omega (arith, length-append body rest),
    )

-- One property that may be repeated.
pub Reads-again :
    (id : ℕ) (body : List ℕ) (update : Properties → Properties) (lo : ℕ)
    → repeatable id ≡ true
    → ((q : Properties) (rest : List ℕ) → parse_value id q (body ++ rest) ≡ ok (update q, rest))
    → Reads (id ∷ body) lo lo update
unfolding parse_loop
Reads-again id body update lo r read = record {
  run = λ fuel rest q seen b l. step fuel rest q seen b l;
}
  where
    step :
        (fuel : ℕ) (rest : List ℕ) (q : Properties) (seen : List ℕ)
        → Below lo seen
        → length ((id ∷ body) ++ rest) ≤ fuel
        → (fuel' : ℕ) × (seen' : List ℕ) × (parse_loop fuel ((id ∷ body) ++ rest) q seen
            ≡ parse_loop fuel' rest (update q) seen')
          × Below lo seen'
          × (length rest ≤ fuel')
    step zero rest q seen b l = absurd (omega arith)
    step (suc fuel) rest q seen b l =
        (fuel, seen, rw (r, read q rest), b, omega (arith, length-append body rest))

pub Reads-widen :
    {bs : List ℕ} {lo hi high : ℕ} {f : Properties → Properties}
    → hi ≤ high
    → Reads bs lo hi f
    → Reads bs lo high f
Reads-widen {hi} {high} h r = record {
  run = λ fuel rest q seen b l.
      let (fuel1, seen1, e1, b1, l1) = r.run fuel rest q seen b l in
      (fuel1, seen1, e1, Below-mono hi high seen1 h b1, l1);
}
