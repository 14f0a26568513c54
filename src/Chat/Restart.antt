-- ===== src/Chat/Restart.antt =====
-- The ids of chat lines across two runs of the server (src/ws_lobby.rs).
use mathlib.Core.Option.{map as map_option}
use recomp_net_server.Common.{◌+◌, ◌≡◌, subst, some, List, [], ◌∷◌, length, arith}
use recomp_net_server.Chat.{ChatLine, ChatLog, remember_chat, chat_with_context, default}
use recomp_net_server.Chat.Ring.{
  IsLog, Runs, remember_chat-IsLog, remember_chat-ids, remember_all, remember_chat-found,
}

remember_all-IsLog : (g : ChatLog) (lines : List ChatLine) → IsLog g → IsLog (remember_all g lines)
unfolding remember_all
remember_all-IsLog g [] log = log
remember_all-IsLog g (line ∷ lines) log =
    remember_all-IsLog (remember_chat g line).0 lines (remember_chat-IsLog g line log)

remember_all-next :
    (g : ChatLog) (lines : List ChatLine)
    → (remember_all g lines).next_chat_id ≡ g.next_chat_id + length lines
unfolding remember_all
remember_all-next g [] = omega arith
remember_all-next g (line ∷ lines) =
    let (next, _) = remember_chat-ids g line in
    omega (arith, remember_all-next (remember_chat g line).0 lines, next)

default-IsLog : IsLog default
unfolding IsLog Runs
default-IsLog = (tt, omega arith)

-- Two runs of the server: the id that a line gets in one run, after as many lines as a line of the other
-- run, finds that line of the other run.
pub remember_chat-restart :
    (before after : List ChatLine) (line other : ChatLine)
    → length before ≡ length after
    → map_option
        (λ found. found.0)
        (chat_with_context
          (remember_chat (remember_all default after) other).0
          (remember_chat (remember_all default before) line).1)
      ≡ some (record other { id = (remember_chat (remember_all default before) line).1 })
unfolding remember_all
remember_chat-restart before after line other same =
    let (_, id) = remember_chat-ids (remember_all default before) line in
    let n : (remember_all default after).next_chat_id
        ≡ (remember_chat (remember_all default before) line).1 =
      omega (arith, id, remember_all-next default before, remember_all-next default after, same) in
    subst
      (λ m.
        map_option (λ found. found.0)
          (chat_with_context (remember_chat (remember_all default after) other).0 m)
        ≡ some (record other { id = m }))
      {x = (remember_all default after).next_chat_id}
      {y = (remember_chat (remember_all default before) line).1} n
      (remember_chat-found (remember_all default after) other []
        (remember_all-IsLog default after default-IsLog) (omega arith))
