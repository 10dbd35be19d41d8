-- ===== src/Hub/Midia/Execucao.antt =====
-- src/hub.go: the sessions of the SFU through each event of the hub.
use greenlabs_server.Comum.{ℕ, ◌≡◌, refl, true, Option, none, some, List, if◌then◌else◌, if_cases}
use greenlabs_server.Comum.Texto.{Texto, codes, eq_texto}
use greenlabs_server.Hub.{
  ℤ, Hub, MensagemEntrada, Retransmissor, Json, Reais, novo_peer, sala_de, tem_peer,
}
use greenlabs_server.Hub.Operacoes.{
  esvaziar_pings, entrar, responder_ping, entregar_do_sfu, repassar, tratar,
}
use greenlabs_server.Hub.Indice.{IsIndice}
use greenlabs_server.Hub.Indice.Moldura.{mudar_peer-Mesma}
use greenlabs_server.Hub.Indice.Repasse.{
  esvaziar_pings-Mesma, responder_ping-Mesma, entregar_do_sfu-Mesma,
}
use greenlabs_server.Hub.Indice.Execucao.{
  Evento, conecta, mensagem, cai, tique, do_sfu, rede, passo, sala_de-novo_peer,
}
use greenlabs_server.Hub.Midia.{LeisRetransmissor, IsLigada}
use greenlabs_server.Hub.Midia.Parada.{
  sfu-mudar_peer, sfu-esvaziar_pings, sfu-responder_ping, sfu-entregar_do_sfu,
}
use greenlabs_server.Hub.Midia.Ligada.{
  IsLigadaA-igual, IsLigada-Mesma, sair-IsLigada, entrar-IsLigada,
}
use greenlabs_server.Hub.Midia.Repasse.{repassar-IsLigada}

module _ {S : Type 0} {F : Type 0} (sfu : Retransmissor S) (leis : LeisRetransmissor sfu)
    (json : Json) (num : Reais F) where
  tratar-IsLigada :
      (agora : ℤ) (id : Texto) (bruto : List ℕ) (h : Hub S)
      → IsIndice h
      → tem_peer id h ≡ true
      → IsLigada sfu leis h
      → IsLigada sfu leis (tratar sfu json num agora id bruto h)
  unfolding tratar
  tratar-IsLigada agora id bruto h v t w = caso (json.entrada bruto)
    where
      caso :
          (o : Option MensagemEntrada)
          → IsLigada sfu leis (elim o [
            | none ↦ h
            | some m ↦
                if eq_texto m.tipo (codes "ping")
                then responder_ping num agora id m h
                else if eq_texto m.tipo (codes "join")
                then entrar sfu id m h
                else repassar sfu json id m bruto h
          ])
      caso none = w
      caso (some m) =
          if_cases (IsLigada sfu leis) (eq_texto m.tipo (codes "ping"))
            (λ _.
              IsLigada-Mesma sfu leis h (responder_ping num agora id m h)
                (responder_ping-Mesma num agora id m h) (sfu-responder_ping num agora id m h) w)
            (λ _.
              if_cases (IsLigada sfu leis) (eq_texto m.tipo (codes "join"))
                (λ _. entrar-IsLigada sfu leis id m h v t w)
                (λ _. repassar-IsLigada sfu leis json id m bruto h w))

  pub passo-IsLigada :
      (e : Evento) (h : Hub S)
      → IsIndice h
      → IsLigada sfu leis h
      → IsLigada sfu leis (passo sfu json num e h)
  unfolding passo
  passo-IsLigada (conecta id c) h v w =
      if_cases (IsLigada sfu leis) (tem_peer id h) (λ _. w)
        (λ t.
          unfold novo_peer in
          IsLigadaA-igual sfu leis (λ y. sala_de y h) (λ y. sala_de y (novo_peer id c h)) h.sfu
            (λ y. sala_de-novo_peer id y c h t) w)
  passo-IsLigada (mensagem id agora bruto) h v w =
      if_cases (IsLigada sfu leis) (tem_peer id h) (λ t. tratar-IsLigada agora id bruto h v t w)
        (λ _. w)
  passo-IsLigada (cai id) h v w = sair-IsLigada sfu leis id h v w
  passo-IsLigada tique h v w =
      IsLigada-Mesma sfu leis h (esvaziar_pings h) (esvaziar_pings-Mesma h) (sfu-esvaziar_pings h) w
  passo-IsLigada (do_sfu ms) h v w =
      IsLigada-Mesma sfu leis h (entregar_do_sfu sfu json ms h)
        (entregar_do_sfu-Mesma sfu json ms h) (sfu-entregar_do_sfu sfu json ms h) w
  passo-IsLigada (rede id f) h v w =
      IsLigada-Mesma sfu leis h _
        (mudar_peer-Mesma id (λ p. record p { conexao = f p.conexao }) h (λ p. refl))
        (sfu-mudar_peer id (λ p. record p { conexao = f p.conexao }) h) w
