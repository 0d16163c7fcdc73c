-- ===== src/Stream/Traffic.antt =====
-- What `pipe` delivers and counts (internal/yggss/tunnel.go), and what the status log says of it
-- (internal/yggss/stats.go).
use yggss.Base.{
  ℕ, if_no, if_splits, ◌⊎◌, ◌≡◌, refl, sym, subst, ◌∙◌, ap, Bool, true, false, ◌||◌, Option, List,
  [], ◌∷◌, ◌++◌, inl, inr, Text, take, drop, length, ltb, take-append-drop, arith, Bool-cases,
}
use mathlib.Core.List.{append_assoc, append-nil}
use yggss.Stream.Pipe.{
  TunnelCounters, Turn, Copy, copy_turn, Pipe, Direction, into_a, into_b, is_closed, closed_read,
  seen, start_copy, pipe_turn, run_pipe, pipe,
}

-- The bytes that the reads of one direction bring, in order.
abbrev pub chunks_into_b : List (Direction × Turn) → Text
chunks_into_b [] = []
chunks_into_b ((into_a, t) ∷ ts) = chunks_into_b ts
chunks_into_b ((into_b, t) ∷ ts) = t.chunk ++ chunks_into_b ts

pub closed_turn :
    (p : Pipe) (t : Direction × Turn)
    → is_closed p ≡ true
    → (is_closed (pipe_turn p t) ≡ true) × ((pipe_turn p t).to_b.delivered ≡ p.to_b.delivered)
unfolding pipe_turn
closed_turn p (into_a, t) c = ground arith
closed_turn p (into_b, t) c = ground (arith, append-nil p.to_b.delivered)

pub split_chunk :
    (n : ℕ) (chunk more : Text) → take n chunk ++ (drop n chunk ++ more) ≡ chunk ++ more
split_chunk n chunk more =
    sym (append_assoc (take n chunk) (drop n chunk) more)
    ∙ ap (λ t. t ++ more) (take-append-drop n chunk)

copy_turn-delivers :
    (chunk : Text) (read_err write_ok : Bool) (wrote : ℕ) (c : Copy)
    → let t : Turn = record {
      chunk = chunk;
      read_err = read_err;
      write_ok = write_ok;
      wrote = wrote;
    } in
      c.ended ≡ false
      → ((copy_turn t c).delivered ≡ c.delivered ++ chunk)
        ⊎ (((copy_turn t c).ended ≡ true)
            × ((copy_turn t c).delivered ≡ c.delivered ++ take wrote chunk))
unfolding copy_turn
copy_turn-delivers [] err ok wrote c e = ground (arith, append-nil c.delivered)
copy_turn-delivers (b ∷ bs) err ok wrote c e = ground arith

-- A turn of an open pipe delivers the chunk, or closes the pipe and delivers what is written of it.
pub into_b_turn :
    (p : Pipe) (t : Turn)
    → is_closed p ≡ false
    → ((pipe_turn p (into_b, t)).to_b.delivered ≡ p.to_b.delivered ++ t.chunk)
      ⊎ ((is_closed (pipe_turn p (into_b, t)) ≡ true)
          × ((pipe_turn p (into_b, t)).to_b.delivered ≡ p.to_b.delivered ++ take t.wrote t.chunk))
unfolding pipe_turn
into_b_turn p t c =
    rw (if_no (is_closed p) (record t { write_ok = false; wrote = 0 }) t c)
      (ground (arith, copy_turn-delivers t.chunk t.read_err t.write_ok t.wrote p.to_b))

-- A copy has delivered what its reads have brought, but for a rest once it has ended.
record Follows (c : Copy) (r : Text) : Type 0 where
  whole : c.ended ≡ false → c.delivered ≡ r
  rest : Text
  prefix : c.delivered ++ rest ≡ r

-- A turn that a copy meets where `chunk` was to be read: the chunk, or the end.
Stands : Turn → Text → Type 0
Stands u chunk = (u.chunk ≡ chunk) ⊎ (u ≡ closed_read)

ended-Follows :
    (c d : Copy) (r chunk : Text)
    → Follows c r
    → d.ended ≡ true
    → d.delivered ≡ c.delivered
    → Follows d (r ++ chunk)
ended-Follows c d r chunk f e same = record {
  whole = λ o. absurd (cc (e, o));
  rest = f.rest ++ chunk;
  prefix =
      ap (λ x. x ++ (f.rest ++ chunk)) same
      ∙ sym (append_assoc c.delivered f.rest chunk)
      ∙ ap (λ x. x ++ chunk) f.prefix;
}

partly-Follows :
    (c d : Copy) (n : ℕ) (r chunk : Text)
    → c.delivered ≡ r
    → d.ended ≡ true
    → d.delivered ≡ c.delivered ++ take n chunk
    → Follows d (r ++ chunk)
partly-Follows c d n r chunk all e part = record {
  whole = λ o. absurd (cc (e, o));
  rest = drop n chunk;
  prefix =
      ap (λ x. x ++ drop n chunk) part
      ∙ append_assoc c.delivered (take n chunk) (drop n chunk)
      ∙ ap (λ x. c.delivered ++ x) (take-append-drop n chunk)
      ∙ ap (λ x. x ++ chunk) all;
}

copied-Follows :
    (c d : Copy) (r chunk : Text)
    → c.delivered ≡ r
    → d.delivered ≡ c.delivered ++ chunk
    → Follows d (r ++ chunk)
copied-Follows c d r chunk all went =
    let same = went ∙ ap (λ x. x ++ chunk) all in
    record { whole = λ o. same; rest = []; prefix = append-nil d.delivered ∙ same }

stays_ended :
    (u : Turn) (c : Copy)
    → c.ended ≡ true
    → ((copy_turn u c).ended ≡ true) × ((copy_turn u c).delivered ≡ c.delivered)
unfolding copy_turn
stays_ended u c e = ground arith

ends_now :
    (c : Copy)
    → ((copy_turn closed_read c).ended ≡ true) × ((copy_turn closed_read c).delivered ≡ c.delivered)
unfolding copy_turn
ends_now c = ground arith

copy_turn-Follows :
    (u : Turn) (chunk : Text) (c : Copy) (r : Text)
    → Stands u chunk
    → Follows c r
    → Follows (copy_turn u c) (r ++ chunk)
unfolding Stands
copy_turn-Follows u chunk c r (inr shut) f =
    subst (λ v. Follows (copy_turn v c) (r ++ chunk)) (sym shut)
      (ended-Follows c (copy_turn closed_read c) r chunk f (ends_now c).0 (ends_now c).1)
copy_turn-Follows u chunk c r (inl same) f = elim (Bool-cases c.ended) [
  | inl e ↦ let (e', kept) = stays_ended u c e in ended-Follows c (copy_turn u c) r chunk f e' kept
  | inr o ↦
      subst (λ x. Follows (copy_turn u c) (r ++ x)) same
        (elim (copy_turn-delivers u.chunk u.read_err u.write_ok u.wrote c o) [
          | inl went ↦ copied-Follows c (copy_turn u c) r u.chunk (f.whole o) went
          | inr (e, part) ↦ partly-Follows c (copy_turn u c) u.wrote r u.chunk (f.whole o) e part
        ])
]

seen-Stands : (p : Pipe) (d : Direction) (t : Turn) → Stands (seen p d t) t.chunk
unfolding Stands
seen-Stands p into_a t =
    if_splits (λ u. (u.chunk ≡ t.chunk) ⊎ (u ≡ closed_read)) (is_closed p) closed_read t
      (λ c. inr refl) (λ o. inl refl)
seen-Stands p into_b t =
    if_splits (λ u. (u.chunk ≡ t.chunk) ⊎ (u ≡ closed_read)) (is_closed p)
      (record t { write_ok = false; wrote = 0 }) t (λ c. inl refl) (λ o. inl refl)

-- The bytes that the reads from `b` bring, in order.
abbrev pub chunks_into_a : List (Direction × Turn) → Text
chunks_into_a [] = []
chunks_into_a ((into_a, t) ∷ ts) = t.chunk ++ chunks_into_a ts
chunks_into_a ((into_b, t) ∷ ts) = chunks_into_a ts

run_pipe-Follows :
    (ts : List (Direction × Turn)) (p : Pipe) (a b : Text)
    → Follows p.to_a a
    → Follows p.to_b b
    → Follows (run_pipe p ts).to_a (a ++ chunks_into_a ts)
      × Follows (run_pipe p ts).to_b (b ++ chunks_into_b ts)
unfolding run_pipe pipe_turn
run_pipe-Follows [] p a b f g =
    (subst (Follows p.to_a) (sym (append-nil a)) f, subst (Follows p.to_b) (sym (append-nil b)) g)
run_pipe-Follows ((into_a, t) ∷ ts) p a b f g =
    let f' = copy_turn-Follows (seen p into_a t) t.chunk p.to_a a (seen-Stands p into_a t) f in
    let (x, y) = run_pipe-Follows ts (pipe_turn p (into_a, t)) (a ++ t.chunk) b f' g in
    (
      subst (Follows (run_pipe (pipe_turn p (into_a, t)) ts).to_a)
          (append_assoc a t.chunk (chunks_into_a ts)) x,
      y,
    )
run_pipe-Follows ((into_b, t) ∷ ts) p a b f g =
    let g' = copy_turn-Follows (seen p into_b t) t.chunk p.to_b b (seen-Stands p into_b t) g in
    let (x, y) = run_pipe-Follows ts (pipe_turn p (into_b, t)) a (b ++ t.chunk) f g' in
    (
      x,
      subst (Follows (run_pipe (pipe_turn p (into_b, t)) ts).to_b)
          (append_assoc b t.chunk (chunks_into_b ts)) y,
    )

start-Follows : (counter : Option TunnelCounters) → Follows (start_copy counter) []
start-Follows counter = record { whole = λ o. refl; rest = []; prefix = refl }

-- However reads, writes and errors of the two directions interleave, what reaches `b` is a prefix
-- of the bytes read from `a`, and what reaches `a` of those read from `b`: no byte is changed,
-- repeated or delivered out of order.
pub pipe-prefix :
    (rx tx : Option TunnelCounters) (ts : List (Direction × Turn))
    → ((lost : Text) × ((pipe rx tx ts).to_a.delivered ++ lost ≡ chunks_into_a ts))
      × ((lost : Text) × ((pipe rx tx ts).to_b.delivered ++ lost ≡ chunks_into_b ts))
unfolding pipe
pipe-prefix rx tx ts =
    let (a, b) =
      run_pipe-Follows ts (record { to_a = start_copy rx; to_b = start_copy tx }) [] []
        (start-Follows rx) (start-Follows tx) in
    ((a.rest, a.prefix), (b.rest, b.prefix))

-- Once one copy has ended, the next turn of the copy to `a` ends it, and the next turn of the copy to
-- `b` that reads bytes or an error does, so that `pipe` returns.
pipe_turn-ends :
    (p : Pipe) (t u : Turn)
    → is_closed p ≡ true
    → (ltb 0 (length u.chunk) || u.read_err) ≡ true
    → let q = pipe_turn (pipe_turn p (into_a, t)) (into_b, u) in
      (q.to_a.ended ≡ true) × (q.to_b.ended ≡ true)
unfolding pipe_turn
pipe_turn-ends p t u c e = ground arith
