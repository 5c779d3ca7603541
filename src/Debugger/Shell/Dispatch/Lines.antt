-- ===== src/Debugger/Shell/Dispatch/Lines.antt =====
-- Lines of the debugger from their text to what they do: `dispatch_command` of
-- tools/debugger/src/cli.c.
use risc_v_virtual_machine.Common.{
  ℕ, suc, ◌^◌, ◌≤◌, ◌<◌, List, [], ◌∷◌, ◌≡◌, refl, ◌∙◌, ap, arith, true, false, length, Option,
  some, ltb,
}
use risc_v_virtual_machine.Common.Text.{codes}
use risc_v_virtual_machine.Bus.{vm_bus_read64, vm_bus_write64}
use risc_v_virtual_machine.Bus.Routing.{vm_bus_read-vm_bus_write}
use risc_v_virtual_machine.Memory.{valid_access}
use risc_v_virtual_machine.Memory.Bytes.{IsBytes, double}
use risc_v_virtual_machine.Debugger.Shell.Inspect.{cmd_mem}
use risc_v_virtual_machine.Debugger.Text.{first_string, same_text}
use risc_v_virtual_machine.Debugger.Text.Words.{
  last, more, Words, no_words, word_and, join, tokens-join, first_string-Word,
  first_string-Word-space,
}
use risc_v_virtual_machine.Debugger.Numbers.Hex.{printed, printed-Word, strtoll-printed}
use risc_v_virtual_machine.Debugger.Breakpoints.{add_breakpoint, max_breakpoints}
use risc_v_virtual_machine.Debugger.Shell.{Debugger, done, number, whole, print, value}
use risc_v_virtual_machine.Debugger.Shell.Control.{cmd_break}
use risc_v_virtual_machine.Debugger.Shell.Storage.{cmd_write}
use risc_v_virtual_machine.Debugger.Shell.Dispatch.{
  max_args, commands, find_command, call, call_found, dispatch_command,
}

first_string-join :
    {word : List ℕ} {words : List (List ℕ)}
    → Words (word ∷ words)
    → first_string (join (word ∷ words)) ≡ word
unfolding join
first_string-join (word_and w no_words) = first_string-Word w
first_string-join {words = next ∷ words} (word_and w (word_and v ws)) =
    first_string-Word-space (join (next ∷ words)) w

pub number-printed : (width n : ℕ) → n < 2 ^ 63 → number (printed width n) ≡ some n
unfolding number
number-printed width n h = ap whole (strtoll-printed width n h)

ltb_lt : (a b : ℕ) → a < b → ltb a b ≡ true
ltb_lt a b h = ground (arith, h)

few : (n : ℕ) → n ≤ max_args → ltb max_args n ≡ false
few n h = ground (arith, h)

cmd_break-number :
    (d : Debugger) (name address : List ℕ) {n : ℕ}
    → number address ≡ some n
    → d.breakpoints.count < max_breakpoints
    → cmd_break d (name ∷ address ∷ [])
      ≡ done (record d { breakpoints = add_breakpoint d.breakpoints n })
unfolding cmd_break
cmd_break-number d name address e room =
    rw (cmd_break, e) (rw (ltb_lt d.breakpoints.count max_breakpoints room) refl)

-- The debugger after the write of a double word.
abbrev pub on_bus : Debugger → ℕ → ℕ → Debugger
on_bus d addr n =
    let vm = d.vm in record d { vm = record vm { ctx = vm_bus_write64 vm.ctx addr n } }

cmd_write-number :
    (d : Debugger) (name address word : List ℕ) {addr n : ℕ}
    → number address ≡ some addr
    → number word ≡ some n
    → cmd_write d (name ∷ address ∷ word ∷ []) ≡ done (on_bus d addr n)
unfolding cmd_write
cmd_write-number d name address word e f = rw (cmd_write, e) (rw f refl)

-- The debugger after the read of a double word.
abbrev shown : Debugger → ℕ → Debugger
shown d addr =
    let (word, platform) = vm_bus_read64 d.vm.ctx addr in
    let vm = d.vm in print (record d { vm = record vm { ctx = platform } }) (value word)

cmd_mem-number :
    (d : Debugger) (name address : List ℕ) {addr : ℕ}
    → number address ≡ some addr
    → cmd_mem d (name ∷ address ∷ []) ≡ done (shown d addr)
unfolding cmd_mem
cmd_mem-number d name address e = rw (cmd_mem, e) refl

module _ (files : List ℕ → Option (List ℕ)) where
  -- A line of at most 16 words, the first of which is not `exit`, is given to the command of the
  -- first word with all the words as its arguments, or is not recognized; the debugger goes on.
  pub dispatch_command-join :
      {name : List ℕ} {args : List (List ℕ)} (fuel : ℕ) (d : Debugger)
      → Words (name ∷ args)
      → length (name ∷ args) ≤ max_args
      → same_text name (codes "exit") ≡ false
      → dispatch_command files (suc fuel) d (join (name ∷ args)) ≡ (
        call_found files fuel
            (dispatch_command files fuel)
            (find_command commands name)
            d
            (name ∷ args),
        true,
      )
  unfolding dispatch_command
  dispatch_command-join {name} {args} fuel d ws h e =
      rw (tokens-join ws)
        (rw (first_string-join ws) (rw (few (length (name ∷ args)) h) (rw e refl)))

  -- The line `break 0x<address>` adds the breakpoint if the table has room.
  pub break_line :
      (fuel : ℕ) (d : Debugger) (width n : ℕ)
      → n < 2 ^ 63
      → d.breakpoints.count < max_breakpoints
      → dispatch_command files (suc fuel) d (join (codes "break" ∷ printed width n ∷ []))
        ≡ (done (record d { breakpoints = add_breakpoint d.breakpoints n }), true)
  unfolding same_text find_command call
  break_line fuel d width n h room =
      let words : Words (codes "break" ∷ printed width n ∷ []) =
        word_and (more refl (more refl (more refl (more refl (last refl)))))
          (word_and (printed-Word width n) no_words) in
      dispatch_command-join fuel d words (omega arith) refl
      ∙ ap (λ outcome. (outcome, true))
          (cmd_break-number d (codes "break") (printed width n) (number-printed width n h) room)

  write_line :
      (fuel : ℕ) (d : Debugger) (width addr n : ℕ)
      → addr < 2 ^ 63
      → n < 2 ^ 63
      → dispatch_command files
          (suc fuel)
          d
          (join (codes "write" ∷ printed width addr ∷ printed width n ∷ []))
        ≡ (done (on_bus d addr n), true)
  unfolding same_text find_command call
  write_line fuel d width addr n h k =
      let words : Words (codes "write" ∷ printed width addr ∷ printed width n ∷ []) =
        word_and (more refl (more refl (more refl (more refl (last refl)))))
          (word_and (printed-Word width addr) (word_and (printed-Word width n) no_words)) in
      dispatch_command-join fuel d words (omega arith) refl
      ∙ ap (λ outcome. (outcome, true))
          (cmd_write-number d (codes "write") (printed width addr) (printed width n)
            (number-printed width addr h) (number-printed width n k))

  mem_line :
      (fuel : ℕ) (d : Debugger) (width addr : ℕ)
      → addr < 2 ^ 63
      → dispatch_command files (suc fuel) d (join (codes "mem" ∷ printed width addr ∷ []))
        ≡ (done (shown d addr), true)
  unfolding same_text find_command call
  mem_line fuel d width addr h =
      let words : Words (codes "mem" ∷ printed width addr ∷ []) =
        word_and (more refl (more refl (last refl)))
          (word_and (printed-Word width addr) no_words) in
      dispatch_command-join fuel d words (omega arith) refl
      ∙ ap (λ outcome. (outcome, true))
          (cmd_mem-number d (codes "mem") (printed width addr) (number-printed width addr h))

  -- After the line `write 0x<address> 0x<value>` with an address in RAM and a value below 2 ^ 63, the
  -- line `mem 0x<address>` prints the value and changes nothing more.
  pub mem_line-write_line :
      (fuel : ℕ) (d : Debugger) (width addr n : ℕ)
      → IsBytes d.vm.ctx.ram
      → valid_access addr 8 ≡ true
      → addr < 2 ^ 63
      → n < 2 ^ 63
      → let written = on_bus d addr n in
        (dispatch_command files
            (suc fuel)
            d
            (join (codes "write" ∷ printed width addr ∷ printed width n ∷ []))
          ≡ (done written, true))
        × (dispatch_command files (suc fuel) written (join (codes "mem" ∷ printed width addr ∷ []))
            ≡ (done (print written (value n)), true))
  mem_line-write_line fuel d width addr n v ok h k =
      let read : vm_bus_read64 (vm_bus_write64 d.vm.ctx addr n) addr
          ≡ (n, vm_bus_write64 d.vm.ctx addr n) =
        vm_bus_read-vm_bus_write double d.vm.ctx addr n v ok (omega arith) in
      (
        write_line fuel d width addr n h k,
        mem_line fuel (on_bus d addr n) width addr h ∙ rw read refl,
      )
