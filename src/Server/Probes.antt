-- ===== src/Server/Probes.antt =====
-- A liveness probe, and what becomes of a handler whose connection is lost.
use yggss.Base.{
  put_self, ℕ, ◌<◌, ◌≡◌, refl, sym, ap, ◌∙◌, subst, Bool, true, false, Option, List, [], Text, take,
  put, ◌==◌, arith, ◌&&◌, if_keeps, if◌then◌else◌, if_splits, ==_iff, if_yes, text_eq, text_eq_refl,
  ◌≤◌, ◌⊎◌, inl, inr, ◌∷◌, length, Bool-cases, if_no,
}
use yggss.Identity.{PublicKey}
use yggss.Stream.Peek.{probe_ping, handled, handle_probe_stream, Source, read}
use yggss.Stream.Pipe.{Pipe, Turn, is_closed, into_a, into_b, pipe_turn}
use yggss.Server.Handler.{
  Phase, peeking, piping, finished, Handler, finish, peeked, peek, peek_in, dial, dial_in, Move,
  Counters, move, move_in, turn, with_counters, after_turn, read_stream, pipe_buf_size,
}
use yggss.Server.System.{
  Server, new_server, add_conn, lose_conn, add_handler, set_handler, move_handler, set_counters,
  conn_of, counters, Step, accepts, opens, peeks, dials, copies, loses, Steps, here, next,
}
use yggss.Server.Forwarding.{At}
use yggss.Server.Delivery.{drop_all}
use yggss.Server.Admission.{new_server-Inv, Steps-Inv}

-- The value at one index of a family changed at another or at this one.
put_at {ℓ κ} :
    {A : Type ℓ} (P : A → Type κ) (i j : ℕ) (a : A) (f : ℕ → A)
    → (i ≡ j → P a)
    → P (f j)
    → P (put i a f j)
put_at P i j a f hit miss = if_splits P (i == j) a (f j) (λ e. hit ((==_iff i j).0 e)) (λ e. miss)

-- A handler that has ended, at `i`.
record Ended (i : ℕ) (h : Handler) (s : Server) : Type 0 where
  known : i < s.next_handler
  same : s.handlers i ≡ h

keeps :
    (s : Server) (i j : ℕ) (h h' : Handler)
    → Ended i h s
    → (s.handlers j ≡ h → h' ≡ h)
    → Ended i h (set_handler j h' s)
unfolding set_handler
keeps s i j h h' e k = record {
  known = e.known;
  same = put_at (λ x. x ≡ h) j i h' s.handlers (λ q. k (ap s.handlers q ∙ e.same)) e.same;
}

peek_ended : (k : ℕ) (h x : Handler) → h.phase ≡ finished → x ≡ h → peek k x ≡ h
unfolding peek
peek_ended k h x f e = ap (peek k) e ∙ ap (λ ph. peek_in k ph h) f

dial_ended : (ok : Bool) (h x : Handler) → h.phase ≡ finished → x ≡ h → dial ok x ≡ h
unfolding dial
dial_ended ok h x f e = ap (dial ok) e ∙ ap (λ ph. dial_in ok ph h) f

move_ended :
    (live : Bool) (m : Move) (n : Counters) (h x : Handler)
    → h.phase ≡ finished
    → x ≡ h
    → (move live m n x).0 ≡ h
unfolding move
move_ended live m n h x f e =
    ap (λ y. (move live m n y).0) e ∙ ap (λ ph. (move_in live m n ph h).0) f

Step-Ended :
    (parse : Text → Option PublicKey) (i : ℕ) (h : Handler) {s t : Server}
    → h.phase ≡ finished
    → Step parse s t
    → Ended i h s
    → Ended i h t
unfolding add_conn add_handler lose_conn move_handler set_counters
Step-Ended parse i h f (accepts ch certs ok) e = record { known = e.known; same = e.same }
Step-Ended parse i h {s} f (opens c sent lt live) e = record {
  known = omega (arith, e.known);
  same =
      put_at (λ x. x ≡ h) s.next_handler i _ s.handlers (λ q. absurd (omega (arith, e.known, q)))
        e.same;
}
Step-Ended parse i h {s} f (peeks j k lt) e = keeps s i j h _ e (peek_ended k h (s.handlers j) f)
Step-Ended parse i h {s} f (dials j ok lt) e = keeps s i j h _ e (dial_ended ok h (s.handlers j) f)
Step-Ended parse i h {s} f (copies j m lt) e =
    let c = conn_of j s in
    let n = counters c.channel s in
    let set = keeps s i j h _ e (move_ended c.live m n h (s.handlers j) f) in
    record { known = set.known; same = set.same }
Step-Ended parse i h {s} f (loses c) e = record { known = e.known; same = e.same }

Steps-Ended :
    (parse : Text → Option PublicKey) (i : ℕ) (h : Handler) {s t : Server}
    → h.phase ≡ finished
    → Steps parse s t
    → Ended i h s
    → Ended i h t
Steps-Ended parse i h f here e = e
Steps-Ended parse i h f (next r st) e = Step-Ended parse i h f st (Steps-Ended parse i h f r e)

peek_probe :
    (k : ℕ) (ph : Phase) (h : Handler)
    → ph ≡ peeking
    → take 2 (take k h.sent) ≡ probe_ping
    → peek_in k ph h ≡ finish h
unfolding handle_probe_stream
peek_probe k ph h e p =
    ap (λ x. peek_in k x h) e
    ∙ ap (λ x. peeked x h)
        (if_yes (text_eq (take 2 (take k h.sent)) probe_ping) handled _
          (ap (λ b. text_eq b probe_ping) p ∙ text_eq_refl probe_ping))

-- A stream whose first bytes are the signature of a probe never reaches the shadowsocks server, and
-- its handler has ended once it has read them, whatever happens afterwards.
pub probe-unserved :
    (parse : Text → Option PublicKey) (allowed : Option (List Text)) (s t : Server) (i k : ℕ)
    → Steps parse (new_server allowed) s
    → i < s.next_handler
    → (s.handlers i).phase ≡ peeking
    → take 2 (take k (s.handlers i).sent) ≡ probe_ping
    → Steps parse (set_handler i (peek k (s.handlers i)) s) t
    → ((t.handlers i).phase ≡ finished)
      × ((t.handlers i).forwarded ≡ [])
      × ((t.handlers i).upstream_open ≡ false)
unfolding finish peek set_handler At
probe-unserved parse allowed s t i k before lt at_peek signed after =
    let h = s.handlers i in
    let sound = (Steps-Inv parse allowed before (new_server-Inv parse allowed)).sound i in
    let clean = subst (λ ph. At ph h) at_peek sound.at in
    let ended = Steps-Ended parse i (finish h) refl after (record {
      known = lt;
      same = put_self i (peek k h) s.handlers ∙ peek_probe k h.phase h at_peek signed;
    }) in
    (
      ap (λ x. x.phase) ended.same,
      ap (λ x. x.forwarded) ended.same ∙ clean.0,
      ap (λ x. x.upstream_open) ended.same,
    )

-- Nothing is left open.
pub Closed : Handler → Type 0
Closed h = (h.phase ≡ finished) × (h.stream_open ≡ false) × (h.upstream_open ≡ false)

-- The copy from the stream has ended, or has read what the peek consumed.
abbrev IsDrained : Source → Pipe → Type 0
IsDrained src p = (src.prefix ≡ []) ⊎ (p.to_b.ended ≡ true)

lost_at :
    (m : Move) (prefix rest : Text) (p : Pipe)
    → let src : Source = record { prefix = prefix; rest = rest } in
      IsDrained src p → (turn into_b false m src p).0.to_b.ended ≡ true
unfolding pipe_turn read_stream
lost_at m [] rest p d = ground arith
lost_at m (b ∷ bs) rest p (inl e) = absurd cc
lost_at m (b ∷ bs) rest p (inr e) = ground (arith, e)

lost_read :
    (m : Move) (src : Source) (p : Pipe)
    → IsDrained src p
    → (turn into_b false m src p).0.to_b.ended ≡ true
lost_read m src p d = lost_at m src.prefix src.rest p d

drains_at :
    (m : Move) (prefix rest : Text)
    → length prefix ≤ pipe_buf_size
    → let src : Source = record { prefix = prefix; rest = rest } in
      (read_stream false m src).1.prefix ≡ []
unfolding read_stream read
drains_at m [] rest h = refl
drains_at m (b ∷ bs) rest h = drop_all pipe_buf_size (b ∷ bs) h

stays_ended :
    (p : Pipe) (t : Turn) → p.to_b.ended ≡ true → (pipe_turn p (into_b, t)).to_b.ended ≡ true
unfolding pipe_turn
stays_ended p t e = ground arith

drains :
    (m : Move) (src : Source) (p : Pipe)
    → length src.prefix ≤ pipe_buf_size
    → let (q, r) = turn into_b false m src p in IsDrained r q
drains m src p h = elim (Bool-cases p.to_b.ended) [
  | inl e ↦ inr (stays_ended p (read_stream false m src).0 e)
  | inr o ↦ inl (
      ap (λ r. r.prefix) (if_no p.to_b.ended src (read_stream false m src).1 o)
      ∙ drains_at m src.prefix src.rest h)
]

closed_write :
    (live : Bool) (m : Move) (src : Source) (p : Pipe)
    → p.to_b.ended ≡ true
    → let q = (turn into_a live m src p).0 in (q.to_a.ended ≡ true) × (q.to_b.ended ≡ true)
unfolding pipe_turn
closed_write live m src p e = ground arith

both_ended :
    (r : Source) (p : Pipe) (h : Handler)
    → p.to_a.ended ≡ true
    → p.to_b.ended ≡ true
    → Closed (after_turn r p h)
unfolding after_turn Closed finish
both_ended r p h a b = ground arith

ended-Closed :
    (live : Bool) (m : Move) (n : Counters) (h : Handler) → Closed h → Closed (move live m n h).0
unfolding Closed
ended-Closed live m n h c = subst Closed (sym (move_ended live m n h h c.0 refl)) c

piping_closes :
    (live : Bool) (m : Move) (n : Counters) (r : Source) (p : Pipe) (h : Handler)
    → h.phase ≡ piping r p
    → p.to_b.ended ≡ true
    → m.direction ≡ into_a
    → Closed (move live m n h).0
unfolding move
piping_closes live m n r p h e ended d =
    let q = with_counters n p in
    let (a, b) = closed_write live m r q ended in
    subst (λ ph. Closed (move_in live m n ph h).0) (sym e)
      (subst (λ x. Closed (after_turn (turn x live m r q).1 (turn x live m r q).0 h)) (sym d)
        (both_ended r (turn into_a live m r q).0 h a b))

second_turn :
    (live : Bool) (m : Move) (n : Counters) (r : Source) (p : Pipe) (h : Handler)
    → p.to_b.ended ≡ true
    → m.direction ≡ into_a
    → Closed (move live m n (after_turn r p h)).0
unfolding after_turn finish Closed
second_turn live m n r p h e d =
    let k = record h { forwarded = p.to_b.delivered; phase = piping r p } in
    let shut = record k { stream_open = false; upstream_open = false } in
    if_keeps (λ x. Closed (move live m n x).0) (p.to_a.ended && p.to_b.ended) (finish k)
      (if is_closed p then shut else k) (ended-Closed live m n (finish k) (refl, refl, refl))
      (piping_closes live m n r p (if is_closed p then shut else k)
        (if_keeps (λ x. x.phase ≡ piping r p) (is_closed p) shut k refl refl) e d)

lost_drained :
    (m k : Move) (n n' : Counters) (src : Source) (p : Pipe) (h : Handler)
    → IsDrained src p
    → h.phase ≡ piping src p
    → m.direction ≡ into_b
    → k.direction ≡ into_a
    → let h₁ = (move false m n h).0 in Closed (move false k n' h₁).0
unfolding move
lost_drained m k n n' src p h drained e d d' =
    let q = with_counters n p in
    subst (λ ph. Closed (move false k n' (move_in false m n ph h).0).0) (sym e)
      (subst
        (λ x.
          Closed
            (move false k n' (after_turn (turn x false m src q).1 (turn x false m src q).0 h)).0)
        (sym d)
        (second_turn false k n' (turn into_b false m src q).1 (turn into_b false m src q).0 h
          (lost_read m src q drained) d'))

after_drain :
    (m k : Move) (n n' : Counters) (r : Source) (p : Pipe) (h : Handler)
    → IsDrained r p
    → m.direction ≡ into_b
    → k.direction ≡ into_a
    → Closed (move false k n' (move false m n (after_turn r p h)).0).0
unfolding after_turn finish Closed
after_drain m k n n' r p h drained d d' =
    let j = record h { forwarded = p.to_b.delivered; phase = piping r p } in
    let shut = record j { stream_open = false; upstream_open = false } in
    if_keeps (λ x. Closed (move false k n' (move false m n x).0).0) (p.to_a.ended && p.to_b.ended)
      (finish j) (if is_closed p then shut else j)
      (ended-Closed false k n' (move false m n (finish j)).0
        (ended-Closed false m n (finish j) (refl, refl, refl)))
      (lost_drained m k n n' r p (if is_closed p then shut else j) drained
        (if_keeps (λ x. x.phase ≡ piping r p) (is_closed p) shut j refl refl) d d')

-- When the connection of a stream is lost while its handler copies, with what the peek consumed
-- still unread or not, the handler ends and closes the connection to the shadowsocks server as soon
-- as the copy from the stream has had two turns and then the copy to it one, whatever they meet. What
-- the peek consumed fits the buffer of a copy.
pub lost_conn-ends :
    (l m k : Move) (n n' n'' : Counters) (src : Source) (p : Pipe) (h : Handler)
    → h.phase ≡ piping src p
    → length src.prefix ≤ pipe_buf_size
    → l.direction ≡ into_b
    → m.direction ≡ into_b
    → k.direction ≡ into_a
    → let h₁ = (move false l n h).0 in
      let h₂ = (move false m n' h₁).0 in Closed (move false k n'' h₂).0
unfolding move
lost_conn-ends l m k n n' n'' src p h e small d d' d'' =
    let q = with_counters n p in
    let (after, left) = turn into_b false l src q in
    subst (λ ph. Closed (move false k n'' (move false m n' (move_in false l n ph h).0).0).0) (sym e)
      (subst
        (λ x.
          Closed
            (move false k n''
              (move false m n'
                (after_turn (turn x false l src q).1 (turn x false l src q).0 h)).0).0)
        (sym d) (after_drain m k n' n'' left after h (drains l src q small) d' d''))
