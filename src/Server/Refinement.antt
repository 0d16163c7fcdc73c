-- ===== src/Server/Refinement.antt =====
-- The server (internal/yggss/tunnel.go, internal/yggss/direct.go) refines its queues.
use yggss.Base.{
  ℕ, ◌≡◌, refl, ap, sym, subst, ◌∙◌, arith, Option, List, [], Text, put_self, put_other,
}
use yggss.Identity.{PublicKey}
use yggss.Server.Handler.{Handler, accept_stream, peek, dial, move}
use yggss.Server.System.{
  Server, new_server, nobody, add_conn, lose_conn, add_handler, set_handler, move_handler,
  set_counters, conn_of, counters, Step, accepts, opens, peeks, dials, copies, loses, Steps,
}
use yggss.Server.Admission.{Inv, new_server-Inv, Steps-Inv}
use yggss.Server.Queues.{
  Queue, queue, Serves, Moves, opened, served, kept, waiting_in, peek_in-Serves, dial_in-Serves,
  move_in-Serves,
}

abbrev pub queues : Server → ℕ → Queue
queues s i = queue (s.handlers i)

one_handler :
    (s : Server) (i : ℕ) (h : Handler)
    → Serves (queue (s.handlers i)) (queue h)
    → Moves (queues s) (queues (set_handler i h s))
unfolding set_handler
one_handler s i h sv =
    served i
      (subst (λ x. Serves (queue (s.handlers i)) (queue x)) (sym (put_self i h s.handlers)) sv)
      (λ j ne. ap queue (put_other i j h s.handlers ne))

fresh :
    (c : ℕ) (sent : Text) → queue (accept_stream c sent) ≡ record { passed = []; waiting = sent }
unfolding accept_stream waiting_in
fresh c sent = refl

no_queue : queue nobody ≡ record { passed = []; waiting = [] }
unfolding nobody waiting_in
no_queue = refl

Step-Moves :
    (parse : Text → Option PublicKey) (allowed : Option (List Text)) {s t : Server}
    → Inv parse allowed s
    → Step parse s t
    → Moves (queues s) (queues t)
unfolding add_conn add_handler lose_conn move_handler set_counters peek dial move
Step-Moves parse allowed inv (accepts ch certs ok) = kept (λ j. refl)
Step-Moves parse allowed {s} inv (opens c sent lt live) =
    let h = accept_stream c sent in
    opened s.next_handler sent (ap queue (inv.unused s.next_handler (omega arith)) ∙ no_queue)
      (ap queue (put_self s.next_handler h s.handlers) ∙ fresh c sent)
      (λ j ne. ap queue (put_other s.next_handler j h s.handlers ne))
Step-Moves parse allowed {s} inv (peeks i k lt) =
    let h = s.handlers i in one_handler s i _ (peek_in-Serves k h.phase h refl)
Step-Moves parse allowed {s} inv (dials i ok lt) =
    let h = s.handlers i in one_handler s i _ (dial_in-Serves ok h.phase h refl)
Step-Moves parse allowed {s} inv (copies i m lt) =
    let h = s.handlers i in
    let c = conn_of i s in
    one_handler s i _
      (move_in-Serves c.live m (counters c.channel s) h.phase h refl (inv.sound i).at)
Step-Moves parse allowed inv (loses c) = kept (λ j. refl)

-- Every step of a server that it can reach is a move of its queues: it opens an unused queue with the bytes
-- of a new stream, or one queue passes bytes from its front and perhaps gives up the rest, or
-- nothing moves. So no byte is made up, repeated, reordered or passed from one stream to another.
pub server_refines :
    (parse : Text → Option PublicKey) (allowed : Option (List Text)) (s t : Server)
    → Steps parse (new_server allowed) s
    → Step parse s t
    → Moves (queues s) (queues t)
server_refines parse allowed s t reached st =
    Step-Moves parse allowed (Steps-Inv parse allowed reached (new_server-Inv parse allowed)) st
