-- ===== src/Ambiente/Exemplos.antt =====
-- src/env.go, src/console.go and src/main.go: runs of the settings, and the theorems at an input.
use greenlabs_server.Comum.{ℕ, ◌≡◌, refl, true, false, some, List, [], ◌∷◌, ◌++◌, arith}
use greenlabs_server.Comum.Texto.{codes}
use greenlabs_server.Comum.Inteiro.{pos, atoi}
use greenlabs_server.Ambiente.{Ambiente, Opcoes, opcoes_vazias, resolver_porta}
use greenlabs_server.Ambiente.Console.{ler_string, perguntar_configuracao}
use greenlabs_server.Ambiente.Console.Respostas.{
  digitado, porta_digitada, perguntar_configuracao-porta,
}

abbrev amb0 : Ambiente
amb0 = (codes "PORT", codes "8080") ∷ []

-- The answers to both questions: a port with blanks around it, and yes.
abbrev respostas : List ℕ
respostas = codes " 9000 \nSIM\n"

perguntas_respondidas :
    perguntar_configuracao amb0 true respostas opcoes_vazias
    ≡ (record opcoes_vazias { porta = pos 9000; tunel = codes "auto" }, [], false)
unfolding perguntar_configuracao greenlabs_server.Comum.Texto.dividir_em atoi
    greenlabs_server.Comum.Texto.to_lower greenlabs_server.Comum.Texto.trim_space
    greenlabs_server.Comum.Texto.eq_texto greenlabs_server.Ambiente.porta_valida
perguntas_respondidas = refl

-- With --sfu alone the questions are asked all the same.
pergunta_com_sfu :
    (perguntar_configuracao amb0 true respostas (record opcoes_vazias { sfu = true })).0.porta
    ≡ pos 9000
unfolding perguntar_configuracao greenlabs_server.Comum.Texto.dividir_em
    greenlabs_server.Comum.Texto.to_lower greenlabs_server.Comum.Texto.trim_space
    greenlabs_server.Comum.Texto.eq_texto atoi greenlabs_server.Ambiente.porta_valida
pergunta_com_sfu = refl

perguntar_configuracao-porta_example :
    resolver_porta amb0 (perguntar_configuracao amb0 true (codes "\n") opcoes_vazias).0.porta
    ≡ porta_digitada amb0 (digitado (ler_string (codes "\n")).0)
unfolding perguntar_configuracao
perguntar_configuracao-porta_example =
    perguntar_configuracao-porta amb0 (codes "\n") opcoes_vazias refl
