-- ===== src/Websocket/Escrita/Ordem.antt =====
-- src/websocket.go: the queue's invariant along a schedule.
use greenlabs_server.Comum.{◌≡◌, refl, ap, inl, inr, List, Option-cases, [], ◌∷◌, arith, length}
use greenlabs_server.Websocket.{Conn, QuadroSaida}
use greenlabs_server.Websocket.Fila.{total, IsFila, enfileirar-IsFila, fechar-IsFila}
use greenlabs_server.Websocket.Escrita.{
  escrever_quadro, Enlace, Evento, enfileira, fecha, despacha, desliga, retirar, drenar_laco,
  drenar, encerrar_rede, despachar, despachar_fila, passo, executar,
}

-- The connection after `q` was taken off the channel and written, whether or not that failed.
abbrev pub escrita : QuadroSaida → List QuadroSaida → Conn → Conn
escrita q qs c = record (retirar q qs c) { rede = (escrever_quadro q c.rede).0 }

escrita-IsFila :
    (q : QuadroSaida) (qs : List QuadroSaida) (c : Conn)
    → c.saida ≡ q ∷ qs
    → IsFila c
    → IsFila (escrita q qs c)
unfolding retirar total
escrita-IsFila q qs c e v = record {
  contada = omega (arith, v.contada, ap total e);
  bytes = omega (arith, v.bytes);
  vagas = omega (arith, v.vagas, ap length e);
}

drenar_laco-IsFila :
    (qs : List QuadroSaida) (c : Conn) → c.saida ≡ qs → IsFila c → IsFila (drenar_laco qs c)
unfolding drenar_laco
drenar_laco-IsFila [] c e v = v
drenar_laco-IsFila (q ∷ qs) c e v = elim (Option-cases (escrever_quadro q c.rede).1) [
  | inl f ↦
      rw (f, drenar_laco)
        (drenar_laco-IsFila qs (escrita q qs c) (unfold retirar in refl)
          (escrita-IsFila q qs c e v))
  | inr (x, f) ↦ rw (f, drenar_laco) (escrita-IsFila q qs c e v)
]

encerrar_rede-IsFila : (c : Conn) → IsFila c → IsFila (encerrar_rede c)
unfolding encerrar_rede
encerrar_rede-IsFila c v = record { contada = v.contada; bytes = v.bytes; vagas = v.vagas }

despachar-IsFila :
    (q : QuadroSaida) (qs : List QuadroSaida) (c : Conn)
    → c.saida ≡ q ∷ qs
    → IsFila c
    → IsFila (despachar q qs c).conn
unfolding despachar
despachar-IsFila q qs c e v = elim (Option-cases (escrever_quadro q c.rede).1) [
  | inl f ↦ rw (f, despachar) (escrita-IsFila q qs c e v)
  | inr (x, f) ↦
      rw (f, despachar)
        (encerrar_rede-IsFila _ (fechar-IsFila (escrita q qs c) (escrita-IsFila q qs c e v)))
]

despachar_fila-IsFila :
    (qs : List QuadroSaida) (c : Conn) → c.saida ≡ qs → IsFila c → IsFila (despachar_fila qs c).conn
unfolding despachar_fila
despachar_fila-IsFila [] c e v = v
despachar_fila-IsFila (q ∷ qs) c e v = despachar-IsFila q qs c e v

passo-IsFila : (e : Evento) (l : Enlace) → IsFila l.conn → IsFila (passo e l).conn
unfolding passo drenar
passo-IsFila (enfileira q) l v = enfileirar-IsFila q l.conn v
passo-IsFila fecha l v = fechar-IsFila l.conn v
passo-IsFila despacha l v = ground (arith, despachar_fila-IsFila l.conn.saida l.conn refl v)
passo-IsFila desliga l v =
    ground
      (arith, encerrar_rede-IsFila (drenar l.conn) (drenar_laco-IsFila l.conn.saida l.conn refl v))

-- From a connection whose queue is within its limits, whatever the goroutines do and in whichever
-- order, the count of queued bytes is exact and the queue stays within 2 MiB and 256 frames.
pub executar-IsFila : (es : List Evento) (l : Enlace) → IsFila l.conn → IsFila (executar es l).conn
unfolding executar
executar-IsFila [] l v = v
executar-IsFila (e ∷ es) l v = executar-IsFila es (passo e l) (passo-IsFila e l v)
