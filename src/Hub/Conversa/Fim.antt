-- ===== src/Hub/Conversa/Fim.antt =====
-- src/sinalizacao.go, the loop of atenderWebSocket: it ends, and what it leaves.
use greenlabs_server.Comum.{
  ℕ, ◌<◌, ◌≡◌, refl, sym, ap, ◌∙◌, Bool, true, false, Option, none, some, List, [], ◌∷◌, length,
  if◌then◌else◌, arith,
}
use greenlabs_server.Comum.Texto.{Texto, eq_texto, eq_texto_refl}
use greenlabs_server.Comum.Mapa.{lookup}
use greenlabs_server.Websocket.{Conn, Resultado, ok, err, rede_fechada, fechar}
use greenlabs_server.Websocket.Leitura.{ler}
use greenlabs_server.Websocket.Leitura.Consumo.{Consumiu, ler-Consumiu}
use greenlabs_server.Hub.{ℤ, Peer, Hub, Retransmissor, Json, Reais, mudar_peer, sala_de, tem_peer}
use greenlabs_server.Hub.Operacoes.{sair, tratar}
use greenlabs_server.Hub.Avisos.{no_peer, mudar_peer-no_peer}
use greenlabs_server.Hub.Conversa.{ler_do_peer, despedir, conversar}
use greenlabs_server.Hub.Conversa.Entrada.{por_ler, lida, tratar-Intacta}
use greenlabs_server.Hub.Indice.{IsIndice}
use greenlabs_server.Hub.Indice.Moldura.{IsIndice-Mesma, mudar_peer-Mesma}
use greenlabs_server.Hub.Indice.Sair.{sair-IsIndice, sair-Saiu}
use greenlabs_server.Hub.Indice.Execucao.{tratar-IsIndice}

abbrev fechado_de : Option Peer → Bool
fechado_de none = true
fechado_de (some p) = p.conexao.fechado

abbrev tamanho_de : Option (List ℕ) → ℕ
tamanho_de none = 0
tamanho_de (some bs) = length bs

module _ {S : Type 0} where
  lida-tem_peer :
      (id : Texto) (h : Hub S) (bs : List ℕ) → lida id h ≡ some bs → tem_peer id h ≡ true
  unfolding tem_peer
  lida-tem_peer id h bs e = caso (lookup id h.peers) e
    where
      caso :
          (o : Option Peer)
          → por_ler o ≡ some bs
          → ◌≡◌ {A = Bool} (elim o [ none ↦ false | some p ↦ true ]) true
      caso none k = absurd (ground (arith, k))
      caso (some p) k = refl

  lida_com :
      (id : Texto) (h : Hub S) (p : Peer) (c : Conn)
      → lookup id h.peers ≡ some p
      → lida id (mudar_peer id (λ q. record q { conexao = c }) h) ≡ some c.rede.entrada
  lida_com id h p c e =
      ap por_ler (
        mudar_peer-no_peer id (λ q. record q { conexao = c }) h id
        ∙ ap (no_peer (λ q. if eq_texto id id then record q { conexao = c } else q)) e)
      ∙ ap (λ (b : Bool). some (if b then record p { conexao = c } else p).conexao.rede.entrada)
          (eq_texto_refl id)

fechou :
    (b : Bool) (o : Option Peer) (p : Peer)
    → b ≡ true
    → no_peer (λ q. if b then record q { conexao = fechar q.conexao } else q) o ≡ some p
    → p.conexao.fechado ≡ true
unfolding fechar
fechou b none p t e = absurd (ground (arith, e))
fechou b (some q) p t e =
    sym (ap fechado_de e)
    ∙ ap (λ (c : Bool). (if c then record q { conexao = fechar q.conexao } else q).conexao.fechado)
        t

-- The end of a connection: the rooms are in order, the participant is in none of them, and its
-- connection is closed.
abbrev pub Despedido : {S : Type 0} → Texto → Hub S → Type 0
Despedido id h =
    IsIndice h
    × (sala_de id h ≡ [])
    × ((p : Peer) → lookup id h.peers ≡ some p → p.conexao.fechado ≡ true)

module _ {S : Type 0} (sfu : Retransmissor S) where
  despedir-Despedido : (id : Texto) (h : Hub S) → IsIndice h → Despedido id (despedir sfu id h)
  unfolding despedir
  despedir-Despedido id h v =
      let s = sair sfu id h in
      let f : Peer → Peer = λ p. record p { conexao = fechar p.conexao } in
      let mesma = mudar_peer-Mesma id f s (λ p. refl) in
      let (_, _, c, _) = mesma in
      (
        IsIndice-Mesma s (mudar_peer id f s) mesma (sair-IsIndice sfu id h v),
        c id
            ∙ (sair-Saiu sfu id h v).0 id
            ∙ ap (λ (b : Bool). if b then [] else sala_de id h) (eq_texto_refl id),
        λ p e.
            fechou (eq_texto id id) (lookup id s.peers) p (eq_texto_refl id)
              (sym (mudar_peer-no_peer id f s id) ∙ e),
      )

module _ {S : Type 0} {F : Type 0} (sfu : Retransmissor S) (json : Json) (num : Reais F) where
  abbrev pub Acabou : Texto → Hub S × Bool → Type 0
  Acabou id r = (r.1 ≡ true) × Despedido id r.0

  -- One round, on what the rest of the loop comes to.
  rodada-Acabou :
      (agora : ℤ) (horas : List ℤ) (id : Texto) (h : Hub S) (bs : List ℕ)
      → IsIndice h
      → lida id h ≡ some bs
      → ((h' : Hub S) (cs : List ℕ)
          → IsIndice h'
          → lida id h' ≡ some cs
          → length cs < length bs
          → Acabou id (conversar sfu json num horas id h'))
      → Acabou id (conversar sfu json num (agora ∷ horas) id h)
  unfolding conversar ler_do_peer
  rodada-Acabou agora horas id h bs v e ih = peer (lookup id h.peers) refl e
    where
      lendo : Peer → Conn → Hub S
      lendo p c = mudar_peer id (λ q. record q { conexao = c }) h

      leu :
          (p : Peer) (r : Conn × Resultado (List ℕ))
          → lookup id h.peers ≡ some p
          → length p.conexao.rede.entrada ≡ length bs
          → Consumiu p.conexao r
          → Acabou id (elim r.1 [
            | err e ↦ (despedir sfu id (lendo p r.0), true)
            | ok m ↦ conversar sfu json num horas id (tratar sfu json num agora id m (lendo p r.0))
          ])
      leu p (c, err x) k n m = (
        refl,
        despedir-Despedido sfu id (lendo p c) (
            IsIndice-Mesma h (lendo p c)
              (mudar_peer-Mesma id (λ q. record q { conexao = c }) h (λ q. refl)) v),
      )
      leu p (c, ok m) k n s =
          let h1 = lendo p c in
          let resto = lida_com id h p c k in
          ih (tratar sfu json num agora id m h1) c.rede.entrada
            (tratar-IsIndice sfu json num agora id m h1
              (IsIndice-Mesma h h1
                (mudar_peer-Mesma id (λ q. record q { conexao = c }) h (λ q. refl)) v)
              (lida-tem_peer id h1 c.rede.entrada resto))
            (tratar-Intacta sfu json num agora id m h1 id ∙ resto) (omega (arith, n, s))

      peer :
          (o : Option Peer)
          → lookup id h.peers ≡ o
          → por_ler o ≡ some bs
          → Acabou id (
              let (h1, r) = elim o as (λ _. Hub S × Resultado (List ℕ)) [
                | none ↦ (h, err rede_fechada)
                | some p ↦
                    (let (c, r) = ler p.conexao in
                      (mudar_peer id (λ q. record q { conexao = c }) h, r))
              ] in
              elim r [
                | err e ↦ (despedir sfu id h1, true)
                | ok m ↦ conversar sfu json num horas id (tratar sfu json num agora id m h1)
              ])
      peer none k q = absurd (ground (arith, q))
      peer (some p) k q = leu p (ler p.conexao) k (ap tamanho_de q) (ler-Consumiu p.conexao)

  conversar-Acabou_de :
      (horas : List ℤ) (id : Texto) (h : Hub S) (bs : List ℕ)
      → IsIndice h
      → lida id h ≡ some bs
      → length bs < length horas
      → Acabou id (conversar sfu json num horas id h)
  conversar-Acabou_de [] id h bs v e n = absurd (omega (arith, n))
  conversar-Acabou_de (agora ∷ horas) id h bs v e n =
      rodada-Acabou agora horas id h bs v e
        (λ h' cs v' e' m. conversar-Acabou_de horas id h' cs v' e' (omega (arith, n, m)))

  -- The loop of atenderWebSocket, in a hub whose rooms are the inverse of the participants' own, for a
  -- participant that is there, whatever its connection has to read and with more instants at hand than
  -- bytes: it ends, and then the rooms are still in order, the participant is in no room, and its
  -- connection is closed.
  pub conversar-Acabou :
      (horas : List ℤ) (id : Texto) (h : Hub S) (p : Peer)
      → IsIndice h
      → lookup id h.peers ≡ some p
      → length p.conexao.rede.entrada < length horas
      → Acabou id (conversar sfu json num horas id h)
  conversar-Acabou horas id h p v e n =
      conversar-Acabou_de horas id h p.conexao.rede.entrada v (ap por_ler e) n
