-- ===== src/Guard/Iptables.antt =====
-- Commands in containers, and the firewall rules that the API may set: CheckExec and CheckIptables of
-- internal/dockerguard/policy.go.
pub mod Shapes
pub mod Rules
use vaultrun.Base.{
  length, any, null, Text, codes, is_empty, starts_with, text_eq, Bool, false, ◌&&◌, ◌||◌, not,
  none, some, List, [], ◌∷◌, ltb, if◌then◌else◌,
}
use vaultrun.Guard.Names.{is_bridge, is_chain}
use vaultrun.Guard.Policy.{◌then_check◌, deny_if, text_in}
use vaultrun.Guard.Types.{
  ExecOptions, privileged_exec, not_plain, not_iptables, too_few, other_table, not_our_chain,
  bad_jump, bad_op, Check,
}

-- an argument that selects another table
unfoldable pub selects_table : Text → Bool
selects_table a =
    text_eq a (codes "-t")
    || starts_with (codes "--table") a
    || (starts_with (codes "-t") a && ltb 2 (length a) && not (starts_with (codes "--") a))

abbrev pub is_new_flush_delete : Text → Bool
is_new_flush_delete op = text_in op (codes "-N" ∷ codes "-F" ∷ codes "-X" ∷ [])

abbrev pub is_insert_delete : Text → Bool
is_insert_delete op = text_in op (codes "-I" ∷ codes "-D" ∷ [])

-- -i <bridge> -j <DROP or one of our chains>
unfoldable pub is_bridge_jump : List Text → Bool
is_bridge_jump (i ∷ br ∷ j ∷ target ∷ []) =
    text_eq i (codes "-i")
    && is_bridge br
    && text_eq j (codes "-j")
    && (text_eq target (codes "DROP") || is_chain target)
is_bridge_jump _ = false

-- the `switch` on the operation
unfoldable pub check_rule : Text → Text → List Text → Check
check_rule op chain rest =
    if is_new_flush_delete op
    then deny_if (not (is_chain chain) || not (null rest)) not_our_chain
    else if text_eq op (codes "-A")
    then deny_if (not (is_chain chain)) not_our_chain
    else if is_insert_delete op
    then (deny_if (not (text_in chain (codes "FORWARD" ∷ codes "INPUT" ∷ []))) not_our_chain
        then_check deny_if (not (is_bridge_jump rest)) bad_jump)
    else some bad_op

unfoldable pub check_iptables : List Text → Check
check_iptables (op ∷ chain ∷ rest) =
    if any selects_table (op ∷ chain ∷ rest) then some other_table else check_rule op chain rest
check_iptables _ = some too_few

unfoldable pub check_command : List Text → Check
check_command [] = some not_iptables
check_command (bin ∷ args) =
    deny_if (not (text_in bin (codes "iptables" ∷ codes "ip6tables" ∷ []))) not_iptables
    then_check check_iptables args

abbrev pub is_plain : ExecOptions → Bool
is_plain o =
    is_empty o.user && null o.env && is_empty o.working_dir && not o.attach_stdin && not o.tty

-- `netpolicy` says that the container is the netpolicy helper.
unfoldable pub check_exec : ExecOptions → Bool → Check
unfolding check_command
check_exec opts netpolicy =
    deny_if opts.privileged privileged_exec
    then_check (if not netpolicy
        then none
        else (deny_if (not (is_plain opts)) not_plain then_check check_command opts.cmd))
