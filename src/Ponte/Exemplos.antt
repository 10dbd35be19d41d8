-- ===== src/Ponte/Exemplos.antt =====
-- cmd/ponte/main.go: runs of the proxy, and its theorems at an input.
use greenlabs_server.Comum.{
  ℕ, ◌≡◌, ◌↔◌, refl, true, false, Option, none, some, List, [], ◌∷◌, arith,
}
use greenlabs_server.Comum.Texto.{Texto, codes}
use greenlabs_server.Comum.Inteiro.{pos}
use greenlabs_server.Comum.Mapa.{lookup}
use greenlabs_server.Ponte.{Ponte, Limites, aceito, nova_ponte, validar, decidir, origem_de}
use greenlabs_server.Ponte.Endereco.{eh_publico}
use greenlabs_server.Ponte.Publico.{internas, fora_de, numero, eh_publico-fora_de}
use greenlabs_server.Ponte.Ligacao.{
  copiando, rodada, Ligacao, ligar, Copia, comeca, vai, Alcance, atender,
}
use greenlabs_server.Ponte.Ligacao.Bytes.{IsFiel, ligar-IsFiel}
use greenlabs_server.Ponte.Ligacao.Lugar.{atender-Representa}
use greenlabs_server.Ponte.Reservas.{
  Representa, Evento, chega, parte, executar, IsReserva, executar-IsReserva,
}
use greenlabs_server.Ponte.Validacao.{Alcancavel, validar-Alcancavel}
use greenlabs_server.Ponte.Pedido.{Decidiu, decidir-Decidiu}

abbrev ponte0 : Ponte
ponte0 = nova_ponte (pos 1024) (pos 65535)

abbrev resolver0 : Texto → Option (List (List ℕ))
resolver0 host = some ((8 ∷ 8 ∷ 8 ∷ 8 ∷ []) ∷ [])

abbrev lim0 : Limites
lim0 = record { por_limite = pos 4; total_maximo = pos 200 }

validar-Alcancavel_example :
    (validar resolver0 ponte0 (codes "ws://a.b:8080/") ≡ aceito (codes "a.b:8080"))
    ↔ Alcancavel resolver0 ponte0 (codes "ws://a.b:8080/") (codes "a.b:8080")
validar-Alcancavel_example =
    validar-Alcancavel resolver0 ponte0 (codes "ws://a.b:8080/") (codes "a.b:8080")

eh_publico-fora_de_example : eh_publico (10 ∷ 1 ∷ 2 ∷ 3 ∷ []) ≡ fora_de internas (numero 10 1 2 3)
eh_publico-fora_de_example =
    eh_publico-fora_de 10 1 2 3 (omega arith) (omega arith) (omega arith) (omega arith)

abbrev chegadas : List Evento
chegadas = chega (codes "x") ∷ chega (codes "y") ∷ parte (codes "x") ∷ []

executar-IsReserva_example : IsReserva 200 4 (executar lim0 chegadas (ponte0, []))
executar-IsReserva_example = executar-IsReserva 200 4 (pos 1024) (pos 65535) chegadas

decidir-Decidiu_example :
    Decidiu resolver0 lim0
      (codes "a.b:8080")
      (origem_de (codes "1.2.3.4:99") [])
      ponte0
      (decidir resolver0 lim0 (codes "a.b:8080") (codes "1.2.3.4:99") [] ponte0)
decidir-Decidiu_example =
    decidir-Decidiu resolver0 lim0 (codes "a.b:8080") (codes "1.2.3.4:99") [] ponte0

abbrev alcance0 : Alcance
alcance0 = record {
  pode_sequestrar = true;
  alcanca = true;
  sequestra = true;
  escreve_pedido = true;
  guardados = 7 ∷ [];
  escreve_guardados = true;
}

abbrev meia_copia : Ligacao
meia_copia = record (ligar (1 ∷ []) (2 ∷ 3 ∷ []) (4 ∷ [])) {
  ida = record { recebido = 1 ∷ 2 ∷ []; por_ler = 3 ∷ []; situacao = copiando };
}

meia_copia-Copia : Copia (ligar (1 ∷ []) (2 ∷ 3 ∷ []) (4 ∷ [])) meia_copia
unfolding rodada
meia_copia-Copia = vai (record { lidos = 1; acabou = false; falha = none }) refl comeca

ligar-IsFiel_example : IsFiel (1 ∷ 2 ∷ 3 ∷ []) meia_copia.ida × IsFiel (4 ∷ []) meia_copia.volta
ligar-IsFiel_example = ligar-IsFiel (1 ∷ []) (2 ∷ 3 ∷ []) (4 ∷ []) meia_copia meia_copia-Copia

atender-Representa_example :
    Representa
      (atender resolver0 lim0 alcance0
        (codes "a.b:8080")
        (codes "1.2.3.4:99")
        []
        (1 ∷ [])
        (2 ∷ [])
        (3 ∷ [])
        ponte0).0
      []
unfolding lookup nova_ponte
atender-Representa_example =
    atender-Representa resolver0 lim0 alcance0 (codes "a.b:8080") (codes "1.2.3.4:99") [] (1 ∷ [])
      (2 ∷ []) (3 ∷ []) ponte0 [] (refl, λ ip. refl)
