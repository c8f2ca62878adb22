-- ===== src/Proxy/Finder/Config.antt =====
-- The upstreams that NewDebugInfoFinder sets up (cmd/proxy/finder.go).
use debuginfod_pwndbg_re.Prelude.{true, false, [], ◌∷◌}
use debuginfod_pwndbg_re.Proxy.Finder.{Server, Upstreams}

abbrev pub systemtap : Server
systemtap = record {
  name = "systemtap";
  url = "https://debuginfod.systemtap.org";
  source_available = 1;
  down = false;
  source_via = "";
}

abbrev pub opensuse : Server
opensuse = record {
  name = "opensuse";
  url = "https://debuginfod.opensuse.org";
  source_available = 1;
  down = false;
  source_via = "";
}

abbrev pub fedora : Server
fedora = record {
  name = "fedora";
  url = "https://debuginfod.fedoraproject.org";
  source_available = 1;
  down = false;
  source_via = "";
}

abbrev pub archlinux : Server
archlinux = record {
  name = "archlinux";
  url = "https://debuginfod.archlinux.org";
  source_available = 1;
  down = false;
  source_via = "";
}

abbrev pub artixlinux : Server
artixlinux = record {
  name = "artixlinux";
  url = "https://debuginfod.artixlinux.org";
  source_available = 1;
  down = false;
  source_via = "";
}

abbrev pub cachyos : Server
cachyos = record {
  name = "cachyos";
  url = "https://debuginfod.cachyos.org";
  source_available = 1;
  down = false;
  source_via = "";
}

abbrev pub centos : Server
centos = record {
  name = "centos";
  url = "https://debuginfod.centos.org";
  source_available = 1;
  down = false;
  source_via = "";
}

abbrev pub debian : Server
debian = record {
  name = "debian";
  url = "https://debuginfod.debian.net";
  source_available = 0;
  down = false;
  source_via = "debian-src";
}

abbrev pub ubuntu : Server
ubuntu = record {
  name = "ubuntu";
  url = "https://debuginfod.ubuntu.com";
  source_available = 0;
  down = true;
  source_via = "";
}

abbrev pub nix : Server
nix = record {
  name = "nix";
  url = "https://127.0.0.1:8034";
  source_available = 1;
  down = false;
  source_via = "";
}

abbrev pub debian_src : Server
debian_src = record {
  name = "debian-src";
  url = "http://127.0.0.1:8036";
  source_available = 1;
  down = false;
  source_via = "";
}

abbrev pub default_upstreams : Upstreams
default_upstreams = record {
  servers =
      ("systemtap", systemtap)
      ∷ ("opensuse", opensuse)
      ∷ ("fedora", fedora)
      ∷ ("archlinux", archlinux)
      ∷ ("artixlinux", artixlinux)
      ∷ ("cachyos", cachyos)
      ∷ ("centos", centos)
      ∷ ("debian", debian)
      ∷ ("ubuntu", ubuntu)
      ∷ ("nix", nix)
      ∷ [];
  delegates = ("debian-src", debian_src) ∷ [];
}
