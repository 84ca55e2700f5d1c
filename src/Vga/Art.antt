-- ===== src/Vga/Art.antt =====
-- The banner of `vga_clear` in drivers/vga/vga.c.
use pxos.Base.{ℕ, List, [], ◌∷◌, codes}

abbrev pub pxos_art : List (List ℕ)
pxos_art =
    codes "         _    _      _             _           _        "
    ∷ codes "        /\\ \\/_/\\    /\\ \\          /\\ \\        / /\\      "
    ∷ codes "       /  \\ \\ \\ \\   \\ \\_\\        /  \\ \\      / /  \\     "
    ∷ codes "      / /\\ \\ \\ \\ \\__/ / /       / /\\ \\ \\    / / /\\ \\__  "
    ∷ codes "     / / /\\ \\_\\ \\__ \\/_/       / / /\\ \\ \\  / / /\\ \\___\\ "
    ∷ codes "    / / /_/ / /\\/_/\\__/\\      / / /  \\ \\_\\ \\ \\ \\ \\/___/ "
    ∷ codes "   / / /__\\/ /  _/\\/__\\ \\    / / /   / / /  \\ \\ \\       "
    ∷ codes "  / / /_____/  / _/_/\\ \\ \\  / / /   / / /    \\ \\ \\      "
    ∷ codes " / / /        / / /   \\ \\ \\/ / /___/ / /_/\\__/ / /      "
    ∷ codes "/ / /        / / /    /_/ / / /____\\/ /\\ \\/___/ /       "
    ∷ codes "\\/_/         \\/_/     \\_\\/\\/_________/  \\_____\\/        "
    ∷ codes "                                                        "
    ∷ []
