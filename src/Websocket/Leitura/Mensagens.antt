-- ===== src/Websocket/Leitura/Mensagens.antt =====
-- src/websocket.go: what Ler promises of every message, and that it always answers.
use greenlabs_server.Comum.{
  ℕ, zero, suc, ◌+◌, ◌≤◌, ◌<◌, ◌≡◌, ◌≢◌, refl, sym, ap, ◌∙◌, inl, inr, Bool, true, false, not, ◌||◌,
  some, List, [], ◌++◌, if_cases, Option-cases, ltb, ◌==◌, length, length-append, arith, subst,
}
use greenlabs_server.Websocket.{
  Conn, Rede, QuadroSaida, Erro, Resultado, ok, err, tamanho_maximo_mensagem, enfileirar, fechar,
  sem_combustivel, op_pong, op_fechar, op_ping, op_texto, op_binario, op_continuacao,
}
use greenlabs_server.Websocket.Fila.{IsFila, enfileirar-IsFila}
use greenlabs_server.Websocket.Leitura.{
  QuadroLido, ler_quadro, Segue, continua, entrega, falha, fechar_mensagem, tratar_dados,
  tratar_continuacao, tratar_ping, tratar_quadro, apos_falha, ler_laco, ler,
}
use greenlabs_server.Websocket.Leitura.Limites.{ler_quadro-IsLido, ler_quadro-Limpo}

-- The pieces of a message are within the limit, and there are none outside a message.
pub record IsMontagem (c : Conn) : Type 0 where
  pub cabe : length c.montagem ≤ tamanho_maximo_mensagem
  pub fora : c.montando ≡ false → c.montagem ≡ []

-- What the loop may go by after a frame.
abbrev pub Seguiu : Conn → Segue → Type 0
Seguiu c' continua = Unit {0}
Seguiu c' (entrega m) = (length m ≤ tamanho_maximo_mensagem) × (c'.montando ≡ false)
Seguiu c' (falha e) = e ≢ sem_combustivel

abbrev pub Tratou : Conn → Conn × Segue → Type 0
Tratou c (c', s) = (c'.rede ≡ c.rede) × IsMontagem c' × IsFila c' × Seguiu c' s

-- `enfileirar` touches the queue and the closed channel, and its errors are its own.
enfileirar_alheio :
    (q : QuadroSaida) (c : Conn)
    → ((enfileirar q c).0.rede ≡ c.rede)
      × ((enfileirar q c).0.montagem ≡ c.montagem)
      × ((enfileirar q c).0.montando ≡ c.montando)
unfolding enfileirar fechar
enfileirar_alheio q c = ground arith

enfileirar_erro :
    (q : QuadroSaida) (c : Conn) (e : Erro) → (enfileirar q c).1 ≡ some e → e ≢ sem_combustivel
unfolding enfileirar
enfileirar_erro q c e h = ground arith

enfileirar-IsMontagem : (q : QuadroSaida) (c : Conn) → IsMontagem c → IsMontagem (enfileirar q c).0
enfileirar-IsMontagem q c v =
    let (_, m, t) = enfileirar_alheio q c in
    record { cabe = omega (arith, v.cabe, ap length m); fora = λ e. m ∙ v.fora (sym t ∙ e) }

tratar_ping-Tratou :
    (q : QuadroLido) (c : Conn) → IsMontagem c → IsFila c → Tratou c (tratar_ping q c)
unfolding tratar_ping
tratar_ping-Tratou q c v f =
    let pong : QuadroSaida = record { opcode = op_pong; dados = q.dados } in
    let r = (enfileirar_alheio pong c).0 in
    let m = enfileirar-IsMontagem pong c v in
    let g = enfileirar-IsFila pong c f in
    elim (Option-cases (enfileirar pong c).1) [
      | inl e ↦ rw (e, tratar_ping) (r, m, g, tt)
      | inr (x, e) ↦ rw (e, tratar_ping) (r, m, g, enfileirar_erro pong c x e)
    ]

-- Two connections that differ in what they assemble share the queue's invariant.
mesma-IsFila :
    (c : Conn) (m : List ℕ) (b : Bool) → IsFila c → IsFila (record c { montagem = m; montando = b })
mesma-IsFila c m b f = record { contada = f.contada; bytes = f.bytes; vagas = f.vagas }

fechar_mensagem-Tratou :
    (fim : Bool) (c : Conn) (m : List ℕ)
    → length m ≤ tamanho_maximo_mensagem
    → IsFila c
    → Tratou c (fechar_mensagem fim (record c { montagem = m; montando = true }))
unfolding fechar_mensagem
fechar_mensagem-Tratou true c m h f =
    (refl, record { cabe = omega arith; fora = λ _. refl }, mesma-IsFila c [] false f, (h, refl))
fechar_mensagem-Tratou false c m h f =
    (refl, record { cabe = h; fora = λ e. cc }, mesma-IsFila c m true f, tt)

tratar_dados-Tratou :
    (q : QuadroLido) (c : Conn)
    → length q.dados ≤ tamanho_maximo_mensagem
    → IsMontagem c
    → IsFila c
    → Tratou c (tratar_dados q c)
unfolding tratar_dados
tratar_dados-Tratou q c h v f =
    if_cases (Tratou c) c.montando (λ _. (refl, v, f, λ e. cc))
      (λ _. fechar_mensagem-Tratou q.fim c q.dados h f)

tratar_continuacao-Tratou :
    (q : QuadroLido) (c : Conn) → IsMontagem c → IsFila c → Tratou c (tratar_continuacao q c)
unfolding tratar_continuacao
tratar_continuacao-Tratou q c v f =
    if_cases (Tratou c) (not c.montando) (λ _. (refl, v, f, λ e. cc))
      (λ a.
        if_cases (Tratou c) (ltb tamanho_maximo_mensagem (length c.montagem + length q.dados))
          (λ _. (refl, v, f, λ e. cc))
          (λ b.
            subst
              (λ (t : Bool). Tratou c (
                fechar_mensagem q.fim
                  (record c { montagem = c.montagem ++ q.dados; montando = t })))
              {x = true} (ground arith)
              (fechar_mensagem-Tratou q.fim c (c.montagem ++ q.dados)
                (ground (arith, length-append c.montagem q.dados)) f)))

-- One frame of at most 1 MiB in Ler's switch, whatever its opcode: the pieces kept and the queue stay
-- within their limits, the socket is as before, a message that is returned has at most 1 MiB and
-- leaves nothing half assembled, and an error is one of the source.
pub tratar_quadro-Tratou :
    (q : QuadroLido) (c : Conn)
    → length q.dados ≤ tamanho_maximo_mensagem
    → IsMontagem c
    → IsFila c
    → Tratou c (tratar_quadro q c)
unfolding tratar_quadro
tratar_quadro-Tratou q c h v f =
    let fecho : QuadroSaida = record { opcode = op_fechar; dados = [] } in
    if_cases (Tratou c) (q.opcode == op_ping) (λ _. tratar_ping-Tratou q c v f)
      (λ _.
        if_cases (Tratou c) (q.opcode == op_pong) (λ _. (refl, v, f, tt))
          (λ _.
            if_cases (Tratou c) (q.opcode == op_fechar)
              (λ _. (
                (enfileirar_alheio fecho c).0,
                enfileirar-IsMontagem fecho c v,
                enfileirar-IsFila fecho c f,
                λ e. cc,
              ))
              (λ _.
                if_cases (Tratou c) (q.opcode == op_texto || q.opcode == op_binario)
                  (λ _. tratar_dados-Tratou q c h v f)
                  (λ _.
                    if_cases (Tratou c) (q.opcode == op_continuacao)
                      (λ _. tratar_continuacao-Tratou q c v f) (λ _. (refl, v, f, λ e. cc))))))

-- What a call of Ler leaves behind, and what it answers.
abbrev pub Leu : Conn × Resultado (List ℕ) → Type 0
Leu (c', ok m) =
    IsMontagem c' × IsFila c' × (length m ≤ tamanho_maximo_mensagem) × (c'.montando ≡ false)
Leu (c', err e) = IsMontagem c' × IsFila c' × (e ≢ sem_combustivel)

-- The rest of a round, by what it goes by; `depois` is the next one.
abbrev seguir : Conn → Segue → Conn × Resultado (List ℕ) → Conn × Resultado (List ℕ)
seguir c' s depois = elim s [ continua ↦ depois | entrega m ↦ (c', ok m) | falha e ↦ (c', err e) ]

seguir-Leu :
    (c' : Conn) (s : Segue) (depois : Conn × Resultado (List ℕ))
    → IsMontagem c'
    → IsFila c'
    → Seguiu c' s
    → Leu depois
    → Leu (seguir c' s depois)
seguir-Leu c' continua depois v f g h = h
seguir-Leu c' (entrega m) depois v f g h = (v, f, g.0, g.1)
seguir-Leu c' (falha e) depois v f g h = (v, f, g)

com_rede : (c : Conn) (r : Rede) → IsFila c → IsFila (record c { rede = r })
com_rede c r f = record { contada = f.contada; bytes = f.bytes; vagas = f.vagas }

rodada-Leu :
    (n : ℕ) (c : Conn) (res : Resultado (QuadroLido × Rede))
    → ((c' : Conn)
        → length c'.rede.entrada < n
        → c'.rede.ao_fim ≢ sem_combustivel
        → IsMontagem c'
        → IsFila c'
        → Leu (ler_laco n c'))
    → length c.rede.entrada < suc n
    → c.rede.ao_fim ≢ sem_combustivel
    → IsMontagem c
    → IsFila c
    → ler_quadro c.rede ≡ res
    → Leu (ler_laco (suc n) c)
unfolding ler_laco
rodada-Leu n c (err e) ih h a v f g =
    rw (g, ler_laco)
      (
        record { cabe = v.cabe; fora = v.fora },
        com_rede c (apos_falha c).rede f,
        λ x. ler_quadro-Limpo c.rede a (g ∙ ap err x),
      )
rodada-Leu n c (ok (q, r)) ih h a v f g =
    let l = ler_quadro-IsLido c.rede q r g in
    let c1 : Conn = record c { rede = r } in
    let (mesma, v', f', s) =
      tratar_quadro-Tratou q c1 l.cabe (record { cabe = v.cabe; fora = v.fora }) (com_rede c r f) in
    let c2 : Conn = (tratar_quadro q c1).0 in
    let menos : length c2.rede.entrada < n =
      omega (arith, l.consumo, ap (λ (x : Rede). length x.entrada) mesma) in
    let fim : c2.rede.ao_fim ≢ sem_combustivel = λ x.
      a (ap (λ (y : Rede). y.ao_fim) (sym l.resto) ∙ ap (λ (y : Rede). y.ao_fim) (sym mesma) ∙ x) in
    rw (g, ler_laco)
      (seguir-Leu c2 (tratar_quadro q c1).1 (ler_laco n c2) v' f' s (ih c2 menos fim v' f'))

ler_laco-Leu :
    (n : ℕ) (c : Conn)
    → length c.rede.entrada < n
    → c.rede.ao_fim ≢ sem_combustivel
    → IsMontagem c
    → IsFila c
    → Leu (ler_laco n c)
ler_laco-Leu zero c h a v f = elim h [ ]
ler_laco-Leu (suc n) c h a v f = rodada-Leu n c (ler_quadro c.rede) (ler_laco-Leu n) h a v f refl

-- From a connection within its limits, Ler always ends, with a message or an error of the source: a
-- message has at most 1 MiB and leaves nothing half assembled, and either way the queue and the
-- pieces kept stay within their limits, whatever the client sent.
pub ler-Leu : (c : Conn) → c.rede.ao_fim ≢ sem_combustivel → IsMontagem c → IsFila c → Leu (ler c)
unfolding ler
ler-Leu c a v f = ler_laco-Leu (suc (length c.rede.entrada)) c (omega arith) a v f
