-- ===== src/Cmd/Templates.antt =====
-- cmd/gocharm: the texts of the programs and of the hooks that the command generates.
use Prim.Native.String.{◌++◌}
use gocharm.Base.{String, List, [], ◌∷◌}
use gocharm.Base.Texts.{quote}

abbrev pub autogen_message : String
autogen_message = "This file is automatically generated. Do not edit."

abbrev pub hook_package : String
hook_package = "github.com/mever/gocharm/v2/hook"

-- The pieces of a template, one after the other.
abbrev texts : List String → String
texts [] = ""
texts (t ∷ ts) = t ++ texts ts

-- hookMainCode with the path of the charm's package.
unfoldable pub hook_main_code : String → String
hook_main_code charm_package = texts (
    "\n// "
    ∷ autogen_message
    ∷ "\n\npackage main\n\nimport (\n\t\"fmt\"\n\t\"os\"\n\tcharm "
    ∷ quote charm_package
    ∷ "\n\t"
    ∷ quote hook_package
    ∷ "\n)\n\nfunc main() {\n\tr := hook.NewRegistry()\n\tcharm.RegisterHooks(r)\n\thook.RegisterMainHooks(r)\n"
    ∷ "\tif len(os.Args) < 2 {\n\t\tfatalf(\"hook name argument required\")\n\t}\n\t// TODO would /etc/init be a better place for local state?\n"
    ∷ "\tctxt, state, err := hook.NewContextFromEnvironment(r, \"/var/lib/juju-localstate\", os.Args[1], os.Args[2:])\n"
    ∷ "\tif err != nil {\n\t\tfatalf(\"cannot create context: %v\", err)\n\t}\n\tdefer ctxt.Close()\n"
    ∷ "\tcmd, err := hook.Main(r, ctxt, state)\n\tif err != nil {\n\t\tfatalf(\"%v\", err)\n"
    ∷ "\t}\n\tif cmd == nil {\n\t\treturn\n\t}\n\tif err := cmd.Wait(); err != nil {\n\t\tfatalf(\"%v\", err)\n"
    ∷ "\t}\n}\n\nfunc fatalf(f string, a ...interface{}) {\n\tfmt.Fprintf(os.Stderr, \"runhook: %s\\n\", fmt.Sprintf(f, a...))\n"
    ∷ "\tos.Exit(1)\n}\n"
    ∷ [])

-- inspectCode with the path of the charm's package.
unfoldable pub inspect_code : String → String
inspect_code charm_package = texts (
    "\n// "
    ∷ autogen_message
    ∷ "\n\npackage main\n\nimport (\n\t\"encoding/json\"\n\t\"github.com/juju/charm/v9\"\n\t\"fmt\"\n"
    ∷ "\t\"os\"\n\n\tinspect "
    ∷ quote charm_package
    ∷ "\n\t"
    ∷ quote hook_package
    ∷ "\n)\n\n// charmInfo must be kept in sync with the charmInfo\n// type above.\n"
    ∷ "type charmInfo struct {\n\tHooks  []string\n\tConfig map[string]charm.Option\n"
    ∷ "\tMeta   charm.Meta\n}\n\nfunc main() {\n\tr := hook.NewRegistry()\n\tinspect.RegisterHooks(r)\n"
    ∷ "\thook.RegisterMainHooks(r)\n\tinfo := charmInfo{\n\t\tHooks:\t   r.RegisteredHooks(),\n"
    ∷ "\t\tConfig:\t   r.RegisteredConfig(),\n\t}\n\n\tinfo.Meta.Summary = r.CharmInfo().Summary\n"
    ∷ "\tinfo.Meta.Description = r.CharmInfo().Description\n\tinfo.Meta.Resources = r.RegisteredResources()\n"
    ∷ "\tinfo.Meta.Provides = make(map[string]charm.Relation)\n\tinfo.Meta.Requires = make(map[string]charm.Relation)\n"
    ∷ "\tfor name, rel := range r.RegisteredRelations() {\n\t\tswitch rel.Role {\n\t\tcase charm.RoleProvider:\n"
    ∷ "\t\t\tinfo.Meta.Provides[name] = rel\n\t\tcase charm.RoleRequirer:\n\t\t\tinfo.Meta.Requires[name] = rel\n"
    ∷ "\t\tcase charm.RolePeer:\n\t\t\tinfo.Meta.Peers[name] = rel\n\t\tdefault:\n\t\t\tpanic(fmt.Sprintf(\"unknown role %q in relation\", rel.Role))\n"
    ∷ "\t\t}\n\t}\n\n\tdata, err := json.Marshal(info)\n\tif err != nil {\n\t\tpanic(err)\n"
    ∷ "\t}\n\tos.Stdout.Write(data)\n}\n"
    ∷ [])

unfoldable pub hook_stub : String → String
hook_stub hook_name = texts ("#!/bin/sh\nset -ex\n$CHARM_DIR/bin/runhook " ∷ hook_name ∷ "\n" ∷ [])
